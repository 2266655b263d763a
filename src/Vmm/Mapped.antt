-- ===== src/Vmm/Mapped.antt =====
-- `map_page`, `unmap_page` and `get_physical_address` of vmm.c together.
use veni.Base.{
  ℕ, ◌+◌, ◌*◌, ◌/◌, ◌%◌, ◌^◌, ◌<◌, ◌≡◌, refl, sym, ap, ap₂, ◌∙◌, true, false, not, bit_or, ◌==◌,
  if◌then◌else◌, arith, inl, inr, ◌⊎◌, Bool-cases, ==→eq, ne→==,
}
use veni.Pmm.Usage.{IsValid}
use veni.Vmm.{
  Vmm, directory_entry, pd_index, page_of, is_present, with_table, map_page, unmap_page,
  get_physical_address,
}
use veni.Vmm.Entries.{IsPaged, is_present_lem, page_entry}
use veni.Vmm.Tabled.{Tabled, with_table-present, with_table-Tabled}
use veni.Vmm.Paged.{absent, Tabled-IsPaged, Tabled-same}
use veni.Vmm.Written.{mapped, same_directory_entry, set_entry-IsPaged, set_entry-address}

-- There is a page table for the address, or a page for a new one.
abbrev pub HasTable : Vmm → (virtual_addr : ℕ) → Type 0
HasTable m v =
    (is_present (directory_entry m (pd_index v)) ≡ true) ⊎ (m.pmm.used_pages < m.pmm.total_pages)

-- The page of `v` gives the page of `p`; all other pages give what they gave.
pub record Mapped (m : Vmm) (v p : ℕ) (m' : Vmm) : Type 0 where
  pub paged : IsPaged m'
  pub valid : IsValid m'.pmm
  pub has_table : is_present (directory_entry m' (pd_index v)) ≡ true
  pub address :
      (u : ℕ)
      → u < 2 ^ 32
      → get_physical_address m' u
        ≡ (if u / 4096 == v / 4096 then p / 4096 * 4096 + u % 4096 else get_physical_address m u)

-- What `map_page` goes on with.
record Ready (m : Vmm) (v : ℕ) (m' : Vmm) : Type 0 where
  paged : IsPaged m'
  valid : IsValid m'.pmm
  there : is_present (directory_entry m' (pd_index v)) ≡ true
  same : (u : ℕ) → u < 2 ^ 32 → get_physical_address m' u ≡ get_physical_address m u

module _ (m : Vmm) (v : ℕ) (lt : v < 2 ^ 32) (paged : IsPaged m) (valid : IsValid m.pmm) where
  present-Ready :
      is_present (directory_entry m (pd_index v)) ≡ true → Ready m v (with_table m (pd_index v))
  present-Ready there =
      rw (with_table-present m (pd_index v) paged valid (omega arith) there)
        (record { paged = paged; valid = valid; there = there; same = λ u h. refl })

  Tabled-Ready :
      is_present (directory_entry m (pd_index v)) ≡ false
      → Tabled m (pd_index v) (with_table m (pd_index v))
      → Ready m v (with_table m (pd_index v))
  Tabled-Ready gone t = record {
    paged = Tabled-IsPaged m (pd_index v) (with_table m (pd_index v)) paged t (omega arith);
    valid = t.valid;
    there =
        is_present_lem (directory_entry (with_table m (pd_index v)) (pd_index v))
        ∙ ap not (ne→== _ 0 (omega (arith, t.new_entry)));
    same = Tabled-same m (pd_index v) (with_table m (pd_index v)) paged t (omega arith) gone;
  }

  with_table-Ready : HasTable m v → Ready m v (with_table m (pd_index v))
  with_table-Ready (inl there) = present-Ready there
  with_table-Ready (inr room) = elim (Bool-cases (is_present (directory_entry m (pd_index v)))) [
    | inl there ↦ present-Ready there
    | inr gone ↦
        Tabled-Ready gone (with_table-Tabled m (pd_index v) paged valid (omega arith) gone room)
  ]

-- The address of an entry that is present.
mapped-present :
    (p f u : ℕ)
    → f < 4096
    → f % 2 ≡ 1
    → mapped (bit_or (page_of p) f) u ≡ p / 4096 * 4096 + u % 4096
mapped-present p f u lt odd =
    rw (page_entry p f lt, here) (page_entry (page_of p + f) (u % 4096) (omega arith) ∙ omega arith)
  where
    here : is_present (page_of p + f) ≡ true
    here = is_present_lem (page_of p + f) ∙ ap not (ne→== _ 0 (omega arith))

-- With a directory that is in order and a page table for the address, or a page for a new one:
-- `map_page` with flags below 4096 that have the present bit keeps directory and allocator in order,
-- `get_physical_address` of an address in the page of `v` is afterwards the place in the page of `p`,
-- and of every other 32-bit address what it was.
pub map_page-Mapped :
    (m : Vmm) (v p f : ℕ)
    → v < 2 ^ 32
    → f < 4096
    → f % 2 ≡ 1
    → IsPaged m
    → IsValid m.pmm
    → HasTable m v
    → Mapped m v p (map_page m v p f)
unfolding map_page
map_page-Mapped m v p f v_lt f_lt odd paged valid table =
    let r = with_table-Ready m v v_lt paged valid table in
    record {
      paged =
          set_entry-IsPaged (with_table m (pd_index v)) v (bit_or (page_of p) f) r.paged r.there
            v_lt;
      valid = r.valid;
      has_table =
          ap is_present (
            same_directory_entry (with_table m (pd_index v)) v (bit_or (page_of p) f) r.paged
              r.there v_lt (pd_index v) (omega arith))
          ∙ r.there;
      address = λ u lt.
          set_entry-address (with_table m (pd_index v)) v (bit_or (page_of p) f) r.paged r.there
            v_lt u lt
          ∙ ap₂ (λ a b. if u / 4096 == v / 4096 then a else b) (mapped-present p f u f_lt odd)
              (r.same u lt);
    }

-- `unmap_page` keeps the directory in order, and afterwards `get_physical_address` is 0 in the page of
-- the address and what it was for every other 32-bit address.
pub unmap_page-address :
    (m : Vmm) (v : ℕ)
    → v < 2 ^ 32
    → IsPaged m
    → IsPaged (unmap_page m v)
      × ((u : ℕ)
          → u < 2 ^ 32
          → get_physical_address (unmap_page m v) u
            ≡ (if u / 4096 == v / 4096 then 0 else get_physical_address m u))
unfolding unmap_page
unmap_page-address m v v_lt paged =
    elim (Bool-cases (is_present (directory_entry m (pd_index v)))) [
      | inl there ↦
          rw there
            (set_entry-IsPaged m v 0 paged there v_lt, set_entry-address m v 0 paged there v_lt)
      | inr gone ↦ rw gone (paged, λ u lt. nothing_there u gone)
    ]
  where
    nothing_there :
        (u : ℕ)
        → is_present (directory_entry m (pd_index v)) ≡ false
        → get_physical_address m u ≡ (if u / 4096 == v / 4096 then 0 else get_physical_address m u)
    nothing_there u gone = elim (Bool-cases (u / 4096 == v / 4096)) [
      | inl f ↦ rw f (
          absent m u
            (ap (λ i. is_present (directory_entry m i)) (omega (arith, ==→eq _ _ f)) ∙ gone))
      | inr f ↦ rw f refl
    ]

-- Where the page of the address had no physical address, `unmap_page` after `map_page` with flags as
-- above gives every 32-bit address the physical address that it had before.
pub unmap_page-map_page :
    (m : Vmm) (v p f : ℕ)
    → v < 2 ^ 32
    → f < 4096
    → f % 2 ≡ 1
    → IsPaged m
    → IsValid m.pmm
    → HasTable m v
    → ((u : ℕ) → u < 2 ^ 32 → u / 4096 ≡ v / 4096 → get_physical_address m u ≡ 0)
    → (u : ℕ) → u < 2 ^ 32
    → get_physical_address (unmap_page (map_page m v p f) v) u ≡ get_physical_address m u
unmap_page-map_page m v p f v_lt f_lt odd paged valid table unmapped u lt =
    let done = map_page-Mapped m v p f v_lt f_lt odd paged valid table in
    (unmap_page-address (map_page m v p f) v v_lt done.paged).1 u lt
    ∙ elim (Bool-cases (u / 4096 == v / 4096)) [
      | inl e ↦ rw e (sym (unmapped u lt (==→eq _ _ e)))
      | inr e ↦ rw e (done.address u lt ∙ rw e refl)
    ]
