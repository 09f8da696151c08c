-- ===== src/Examples/Window.antt =====
-- A window of at most two samples, over whole numbers in place of floats.
use sense_grid.Common.{
  ℕ, ◌+◌, ◌-◌, ◌*◌, ◌/◌, ◌≡◌, false, List, [], ◌∷◌, arith, ltb, nat_eq, Float, pos,
}
use sense_grid.Window.Buffer.{Sample, new, insert, insert_at, position, fold_in}
use sense_grid.Window.Search.{insert_sorted, insert_at-position}
use sense_grid.Window.Dedupe.{run, accepted, insert-redelivered}
use sense_grid.Window.Validity.{IsValid, run-new-IsValid}

-- A stand-in for float64 on which the program can be run.
abbrev pub whole : Float ℕ
whole = record {
  nil = 0;
  one = 1;
  add = λ a b. a + b;
  sub = λ a b. a - b;
  mul = λ a b. a * b;
  div = λ a b. a / b;
  of_int = λ n. n;
  lt = ltb;
  equal = nat_eq;
  sqrt = λ a. a;
  abs = λ a. a;
  to_int = λ a. pos a;
}

abbrev at_time : ℕ → Sample ℕ
at_time t = record { device_time = t; value = 1; seq = t }

abbrev three : List (ℕ × ℕ × ℕ)
three = (10, 1, 1) ∷ (30, 1, 2) ∷ (20, 1, 3) ∷ []

insert_at-position_example :
    insert_at
      (position (at_time 10 ∷ at_time 30 ∷ []) 20)
      (at_time 20)
      (at_time 10 ∷ at_time 30 ∷ [])
    ≡ insert_sorted (at_time 20) (at_time 10 ∷ at_time 30 ∷ [])
insert_at-position_example =
    insert_at-position (at_time 20) (at_time 10 ∷ at_time 30 ∷ []) (omega arith)

insert-redelivered_example : (insert whole (run whole (new whole 2 0 1) three) 40 1 3).1 ≡ false
unfolding accepted insert new fold_in
insert-redelivered_example = insert-redelivered whole 2 0 1 three 40 1 3

run-new-IsValid_example : IsValid (run whole (new whole 2 0 1) three)
run-new-IsValid_example = (run-new-IsValid whole 2 0 1 three).0
