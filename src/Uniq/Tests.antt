-- ===== src/Uniq/Tests.antt =====
-- Runs of src/lua-uniq.c, and its theorems at concrete states.
use my_skynet.Prelude.{ℕ, ◌+◌, ◌≡◌, ◌↔◌, refl, List, [], ◌∷◌, ◌++◌, some, arith}
use my_skynet.Uniq.{uniq_incr, Statics, genid, uint64_str, init}
use my_skynet.Uniq.Round.{calls, numbered, round_lem}
use my_skynet.Uniq.Run.{run, Distinct, run-Distinct}
use my_skynet.Uniq.Hex.{hex_value, hex_value-uint64_str}
use my_skynet.Uniq.Repeat.{burst, run_repeats}

abbrev started : Statics
started = record { main_id = 7; last_sec = 0; last_inc = 5; inc = 5 }

initial : init (record { main_id = 0; last_sec = 0; last_inc = 0; inc = 0 }) 7 5 ≡ some started
unfolding init
initial = refl

refused : genid (record started { last_sec = 100 }) 100 ≡ (0, record started { last_sec = 100 })
unfolding genid
refused = refl

text :
    uint64_str 0x1f
    ≡ b'0' ∷ b'0' ∷ b'0' ∷ b'0' ∷ b'0' ∷ b'0' ∷ b'0' ∷ b'0' ∷ b'0' ∷ b'0' ∷ b'0' ∷ b'0' ∷ b'0'
      ∷ b'0' ∷ b'1' ∷ b'F' ∷ []
unfolding uint64_str
text = refl

round_lem_example :
    ((calls started (100 ∷ 99 ∷ 100 ∷ [])).0 ≡ numbered 7 5 (100 ∷ 99 ∷ 100 ∷ []))
    × ((genid (calls started (100 ∷ 99 ∷ 100 ∷ [])).1 100
          ≡ (0, (calls started (100 ∷ 99 ∷ 100 ∷ [])).1))
        ↔ ((3 ≡ uniq_incr) × (◌≡◌ {A = ℕ} 100 100)))
round_lem_example =
    round_lem started 100 (99 ∷ 100 ∷ []) 100 (omega arith) refl (omega arith) (omega arith)

run-Distinct_example : Distinct (run started (100 ∷ 100 ∷ 99 ∷ []))
run-Distinct_example = run-Distinct started (100 ∷ 100 ∷ 99 ∷ []) (omega arith) (omega arith)

hex_value-uint64_str_example : hex_value 0 (uint64_str 0xabcdef) ≡ 0xabcdef
hex_value-uint64_str_example = hex_value-uint64_str 0xabcdef (omega arith)

run_repeats_example :
    (xs ys zs : List ℕ) × (id : ℕ) × (run started (100 ∷ burst (uniq_incr + 1) 101)
      ≡ xs ++ id ∷ (ys ++ id ∷ zs))
run_repeats_example =
    run_repeats started 100 (record { app = omega arith; counter = omega arith }) refl (omega arith)
