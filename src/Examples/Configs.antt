-- ===== src/Examples/Configs.antt =====
-- The theorem on read_config with files of lines.
use hdh.Base.{ℕ, ◌≤◌, ◌≡◌, refl, Option, some, none, List, [], ◌∷◌, ◌++◌, length, arith}
use hdh.Loader.{returns}
use hdh.Config.{Input, directory, fixed_sizes, read_config}
use hdh.Config.Text.{Line, Listing, read_config-print}

data Item : Type 0 where
  numbers : (a b c : ℕ) → Item
  entry : Line → Item

abbrev next_numbers : List Item → List ℕ × List Item
next_numbers [] = ([], [])
next_numbers (numbers a b c ∷ f) = (a ∷ b ∷ c ∷ [], f)
next_numbers (entry l ∷ f) = ([], entry l ∷ f)

abbrev next_entry : List Item → Option (ℕ × List ℕ × ℕ) × List Item
next_entry [] = (none, [])
next_entry (numbers a b c ∷ f) = (none, numbers a b c ∷ f)
next_entry (entry l ∷ f) = (some (l.start_time, l.proc, l.prio), f)

abbrev NonEmpty : List ℕ → Type 0
NonEmpty w = 1 ≤ length w

abbrev two_lines : List Line
two_lines =
    record { start_time = 0; proc = b'p' ∷ b'0' ∷ b's' ∷ []; prio = 1 }
    ∷ record { start_time = 2; proc = b's' ∷ b'3' ∷ []; prio = 39 }
    ∷ []

abbrev items : Input (List Item)
items = record {
  fopen = λ path. some (
      numbers 2 4 2
      ∷ entry (record { start_time = 0; proc = b'p' ∷ b'0' ∷ b's' ∷ []; prio = 1 })
      ∷ entry (record { start_time = 2; proc = b's' ∷ b'3' ∷ []; prio = 39 })
      ∷ []);
  scan_sizes = next_numbers;
  scan_entry = next_entry;
}

abbrev listing : Listing items NonEmpty
listing = record {
  sizes = λ a b c f. numbers a b c ∷ f;
  line = λ l f. entry l ∷ f;
  sizes_lem = λ a b c f _. refl;
  line_lem = λ l f _ _ _. refl;
}

read_config-print_example :
    read_config items []
    ≡ returns (record fixed_sizes {
      time_slot = 2;
      num_cpus = 4;
      num_processes = 2;
      ld_processes =
          record { path = directory ++ (b'p' ∷ b'0' ∷ b's' ∷ []); start_time = 0; prio = 1 }
          ∷ record { path = directory ++ (b's' ∷ b'3' ∷ []); start_time = 2; prio = 39 }
          ∷ [];
    })
read_config-print_example =
    read_config-print listing [] 2 4 two_lines [] refl (omega arith) (omega arith) (omega arith) (
      record {
        start_time = omega arith;
        prio = omega arith;
        word = omega arith;
        short = omega arith;
      },
      (
        record {
          start_time = omega arith;
          prio = omega arith;
          word = omega arith;
          short = omega arith;
        },
        tt,
      ),
    )
