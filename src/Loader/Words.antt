-- ===== src/Loader/Words.antt =====
-- src/loader.c: the words of the instructions.
use hdh.Base.{
  ℕ, ◌≡◌, ◌↔◌, inl, inr, refl, ap, ◌∙◌, ◌==◌, ==_iff, true, false, Bool-cases, if◌then◌else◌, List,
  [], ◌∷◌,
}
use hdh.Kernel.{Opcode}
use hdh.Loader.{Outcome, returns, same_word, opcode_word, get_opcode}

same_word-eq : (v w : List ℕ) → same_word v w ≡ true → v ≡ w
same_word-eq [] [] h = refl
same_word-eq [] (c ∷ w) h = absurd (cc)
same_word-eq (b ∷ v) [] h = absurd (cc)
same_word-eq (b ∷ v) (c ∷ w) h = elim (Bool-cases (b == c)) [
  | inl same ↦
      let first : b ≡ c = (==_iff b c).0 same in
      let rest : v ≡ w = same_word-eq v w (rw same at h) in rw (first, rest) refl
  | inr other ↦ let no_word : false ≡ true = rw other at h in absurd (cc)
]

pub get_opcode-opcode_word : (opcode : Opcode) → get_opcode (opcode_word opcode) ≡ returns opcode
unfolding get_opcode
get_opcode-opcode_word Opcode.calc = refl
get_opcode-opcode_word Opcode.alloc = refl
get_opcode-opcode_word Opcode.free = refl
get_opcode-opcode_word Opcode.read = refl
get_opcode-opcode_word Opcode.write = refl
get_opcode-opcode_word Opcode.syscall = refl

-- One test of get_opcode.
tested :
    (word : List ℕ) (op opcode : Opcode) (other : Outcome Opcode)
    → (if same_word word (opcode_word op) then returns op else other) ≡ returns opcode
    → (other ≡ returns opcode → word ≡ opcode_word opcode)
    → word ≡ opcode_word opcode
tested word op opcode other e rest = elim (Bool-cases (same_word word (opcode_word op))) [
  | inl same ↦
      let found : returns op ≡ returns opcode = rw same at e in
      let is : op ≡ opcode = cc in same_word-eq word (opcode_word op) same ∙ ap opcode_word is
  | inr differs ↦ rest (rw differs at e)
]

-- get_opcode returns an opcode exactly for the word of that opcode.
pub get_opcode_iff :
    (word : List ℕ) (opcode : Opcode)
    → (get_opcode word ≡ returns opcode) ↔ (word ≡ opcode_word opcode)
unfolding get_opcode
get_opcode_iff word opcode = (
  λ e. tested word Opcode.calc opcode _ e (λ e1. tested word Opcode.alloc opcode _ e1 (λ e2.
      tested word Opcode.free opcode _ e2 (λ e3. tested word Opcode.read opcode _ e3 (λ e4.
        tested word Opcode.write opcode _ e4
          (λ e5. tested word Opcode.syscall opcode _ e5 (λ e6. absurd (cc))))))),
  λ e. ap get_opcode e ∙ get_opcode-opcode_word opcode,
)
