-- ===== src/Run/Store/Create/Tests.antt =====
-- internal/run/store.go: a batch of two chats for a key of one run.
use Prim.Native.String.{String}
use infercat.Common.{
  ℕ, zero, suc, ◌+◌, ◌-◌, ◌≡◌, refl, sym, ◌∙◌, ap, Bool, true, false, pos, Option, none, List, [],
  ◌∷◌, length, codes, arith,
}
use infercat.Run.{Raw, Result, ok, err, io_error, Run, image_output}
use infercat.Run.Store.{Snapshot, KeyData, lookup, restrict, retained_budget}
use infercat.Run.Store.Tests.{no_image, small, sizes, key_data}
use infercat.Run.Store.Commit.{commit_for, stamp_images, image_events}
use infercat.Run.Store.Load.{Host, load, is_valid}
use infercat.Run.Store.Create.{Ask, Admit, Created, create_batch, read_rows, add_rows, new_rows}
use infercat.Run.Store.Create.Within.{KeepsLimits, batch_within}
use infercat.Run.Store.Create.Whole.{Kept, batch_whole}

abbrev new_ids : ℕ → String
new_ids zero = "r_2"
new_ids (suc zero) = "r_3"
new_ids (suc (suc n)) = "r_4"

abbrev two_chats : Ask
two_chats = record {
  key = "k_1";
  kind = "chat";
  priority = "interactive";
  inputs = codes "{}" ∷ codes "[]" ∷ [];
  cap = pos 16;
  correlation = "c_1" ∷ [];
}

abbrev host : Host
host = ("k_1", key_data) ∷ []

-- The manager's state is how many runs it has admitted.
abbrev count_rows : Admit ℕ
count_rows rows w = ok (w + length rows, λ v. v - length rows)

abbrev no_file : String → Result (Option Raw)
no_file key = ok none

abbrev no_decoder : String → Raw → Option Snapshot
no_decoder epoch raw = none

abbrev any_json : Raw → Bool
any_json raw = true

abbrev create : Bool → Created ℕ
create wrote =
    create_batch no_image small sizes any_json new_ids "b_1" 20 wrote count_rows
      (load small sizes 20 no_decoder "e_2" no_file) two_chats host 7

abbrev two_rows : List Run
two_rows =
    read_rows (new_rows new_ids "b_1" 20 two_chats 0 two_chats.inputs)
      (add_rows (new_rows new_ids "b_1" 20 two_chats 0 two_chats.inputs) [])

creates_two : (create true).rows ≡ ok two_rows
unfolding create_batch load commit_for retained_budget stamp_images image_events image_output
    restrict
creates_two = refl

admits_two : (create true).world ≡ 9
unfolding create_batch load commit_for retained_budget stamp_images image_events image_output
    restrict
admits_two = refl

write_fails : (create false).rows ≡ err io_error
unfolding create_batch load commit_for retained_budget stamp_images image_events image_output
    restrict
write_fails = refl

-- A file of one run, with the events 4 and 5, is good as long as its sequence ends at 5.
accepts_file : is_valid "k_1" key_data.snapshot ≡ true
unfolding is_valid
accepts_file = refl

refuses_gap : is_valid "k_1" (record key_data.snapshot { seq = 6 }) ≡ false
unfolding is_valid
refuses_gap = refl

taken_back :
    (rows : List Run) (w v : ℕ) (back : ℕ → ℕ) → count_rows rows w ≡ ok (v, back) → back v ≡ w
taken_back rows w v back q =
    sym (ap (λ (r : Result (ℕ × (ℕ → ℕ))). elim r [ ok p ↦ p.1 p.0 | err e ↦ w ]) q) ∙ omega arith

second_new :
    (d : KeyData)
    → (load small sizes 20 no_decoder "e_2" no_file "k_1" host).0 ≡ ok d
    → lookup "r_2" d.snapshot.runs ≡ none
unfolding load lookup
second_new d q =
    sym
      (ap (λ (r : Result KeyData). elim r [ ok x ↦ lookup "r_2" x.snapshot.runs | err e ↦ none ]) q)

batch_within_example : KeepsLimits two_chats (create true).host × (length two_rows ≡ 2)
batch_within_example =
    batch_within no_image small sizes any_json new_ids "b_1" 20 true count_rows no_decoder "e_2"
      no_file two_chats host 7 two_rows second_new creates_two

batch_whole_example :
    Kept host (create false).host × ((create false).world ≡ 7) × ((create false).events ≡ [])
batch_whole_example =
    batch_whole no_image small sizes any_json new_ids "b_1" 20 false count_rows no_decoder "e_2"
      no_file two_chats host 7 io_error taken_back write_fails
