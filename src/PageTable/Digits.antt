-- ===== src/PageTable/Digits.antt =====
-- src/mm64.c: the directory indices of a page number.
use hdh.Base.{ℕ, ◌-◌, ◌*◌, ◌/◌, ◌%◌, ◌^◌, ◌<◌, ◌≡◌, sym, ap, ◌∙◌, bit_and, arith}
use hdh.Base.Word.{u64}
use hdh.Base.Bits.{bit_and_mask, bit_and_field}
use hdh.PageTable.{Indices, get_pd_from_address, get_pd_from_pagenum}

field_lem : (lo addr : ℕ) → bit_and addr ((2 ^ 9 - 1) * 2 ^ lo) / 2 ^ lo ≡ addr / 2 ^ lo % 2 ^ 9
field_lem lo addr = bit_and_field lo (2 ^ 9 - 1) addr ∙ bit_and_mask 9 (addr / 2 ^ lo)

-- The five indices of an address are its bits 48 to 56, 39 to 47, 30 to 38, 21 to 29 and 12 to 20.
pub get_pd_from_address-digits :
    (addr : ℕ)
    → get_pd_from_address addr ≡ record {
      pgd = addr / 2 ^ 48 % 512;
      p4d = addr / 2 ^ 39 % 512;
      pud = addr / 2 ^ 30 % 512;
      pmd = addr / 2 ^ 21 % 512;
      pt = addr / 2 ^ 12 % 512;
    }
unfolding get_pd_from_address
get_pd_from_address-digits addr =
    rw (
      field_lem 48 addr,
      field_lem 39 addr,
      field_lem 30 addr,
      field_lem 21 addr,
      field_lem 12 addr,
    )

-- Two page numbers of the 57-bit address space have the same indices only if they are the same.
pub get_pd_from_pagenum-injective :
    (p q : ℕ) → p < 2 ^ 45 → q < 2 ^ 45 → get_pd_from_pagenum p ≡ get_pd_from_pagenum q → p ≡ q
unfolding get_pd_from_pagenum
get_pd_from_pagenum-injective p q hp hq e =
    let d =
      sym (get_pd_from_address-digits (u64 (p * 2 ^ 12)))
      ∙ e
      ∙ get_pd_from_address-digits (u64 (q * 2 ^ 12)) in
    omega (
      arith,
      ap (λ (i : Indices). i.pgd) d,
      ap (λ (i : Indices). i.p4d) d,
      ap (λ (i : Indices). i.pud) d,
      ap (λ (i : Indices). i.pmd) d,
      ap (λ (i : Indices). i.pt) d,
    )
