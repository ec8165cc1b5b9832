-- ===== src/Examples/Pearl.antt =====
-- A group of two holders, over storages of one record that is the answer for every key.
use bob.Prelude.{
  Bool, List, Member, [], arith, false, get_elem?, inl, inr, none, refl, some, true, ℕ, ◌+◌, ◌∷◌,
  ◌≡◌, ◌≤◌,
}
use bob.Data.{BobKey, BobData, to_serialized_bytes, from_serialized_bytes}
use bob.Error.{Result, ok, is_ok}
use bob.Pearl.Storage.{
  ReadResult, found, deleted, not_found, PearlResult, done, failure, PearlStorage,
}
use bob.Data.Bytes.{to_be_bytes, from_be_bytes}
use bob.Pearl.Holder.{
  write, set_ready, reset, Holder, initializing, running, gets_into_interval, read, exist,
  get_storage, parse_read,
}
use bob.Pearl.Holder.Lifecycle.{
  Shared, new_shared, free, opening, finish_init, Reach, here, next, acquire, reset_storage, opened,
  access, close, IsSound, Reach-IsSound,
}
use bob.Pearl.Group.{Group, find_actual_holder, get, exist_keys, put}
use bob.Pearl.Group.Existence.{Agrees, exist_keys-get}
use bob.Pearl.Group.Writing.{find_actual_holder-lem}
use bob.Pearl.Group.Writing.Placed.{Placed, put-Placed}

abbrev Cell : Type 0
Cell = PearlResult (ReadResult (List ℕ))

abbrev stamp : Cell → PearlResult (ReadResult ℕ)
stamp (done (found bytes)) =
    done (found (elim (from_serialized_bytes bytes) [ none ↦ 0 | some d ↦ d.meta.timestamp ]))
stamp (done (deleted ts)) = done (deleted ts)
stamp (done not_found) = done not_found
stamp (failure e) = failure e

abbrev cells : PearlStorage Cell
cells = record {
  write = λ key bytes ts st. (done tt, done (found bytes));
  read = λ st key. st;
  contains = λ st key. stamp st;
  delete = λ key ts only st. (done 1, done (deleted ts));
}

abbrev data_at : ℕ → BobData
data_at ts = record { inner = 7 ∷ []; meta = record { timestamp = ts } }

abbrev holder_at : ℕ → Cell → Holder Cell
holder_at start cell = record {
  start_timestamp = start;
  end_timestamp = start + 100;
  state = running cell;
  last_modification = 0;
}

abbrev old : Holder Cell
old = holder_at 0 (done (found (to_serialized_bytes (data_at 50))))

abbrev recent : Holder Cell
recent = holder_at 100 (done (found (to_serialized_bytes (data_at 150))))

abbrev group : Group Cell
group = record {
  vdisk_id = 0;
  node_name = "n0";
  disk_name = "disk1";
  holders = old ∷ recent ∷ [];
  safe_timestamp_step = some 10;
  timestamp_period = 100;
  reinit_running = false;
}

abbrev opens : ℕ → Result Cell
opens start = ok (done not_found)

abbrev possible : BobKey → Holder Cell → Bool
possible key h = true

abbrev key : BobKey
key = 1 ∷ []

got : get cells opens 0 10000 possible key group ≡ some (ok (data_at 150), group)
unfolding get read get_storage from_serialized_bytes to_serialized_bytes to_be_bytes from_be_bytes
got = refl

agrees : (h : Holder Cell) → Member h group.holders → Agrees cells opens 0 10000 possible key h
unfolding read exist get_storage parse_read from_serialized_bytes to_serialized_bytes to_be_bytes
agrees h (inl e) = rw e refl
agrees h (inr (inl e)) = rw e refl
agrees h (inr (inr m)) = absurd m

exist_keys-get_example :
    exist_keys cells opens 0 10000 possible (key ∷ []) group ≡ ok (is_ok (ok (data_at 150)) ∷ [])
exist_keys-get_example =
    exist_keys-get cells opens 0 10000 possible key group group (ok (data_at 150)) refl agrees got

find_actual_holder-lem_example :
    ((i : ℕ) (h : Holder Cell)
      → find_actual_holder group.holders 120 ≡ some (i, h)
      → (get_elem? group.holders i ≡ some h) × (gets_into_interval h 120 ≡ true))
    × ((k : Holder Cell)
        → Member k group.holders
        → gets_into_interval k 120 ≡ true
        → (i : ℕ) × (h : Holder Cell) × (find_actual_holder group.holders 120 ≡ some (i, h))
          × (k.start_timestamp ≤ h.start_timestamp))
find_actual_holder-lem_example = find_actual_holder-lem 120 group.holders

-- The put goes to the recent holder.
abbrev group_after : Group Cell
group_after = record group {
  holders =
      old
      ∷ record (holder_at 100 (done (found (to_serialized_bytes (data_at 160))))) {
        last_modification = 0;
      }
      ∷ [];
}

put_done : put cells opens 0 10000 possible key (data_at 160) true group ≡ some (ok tt, group_after)
unfolding put write get_storage
put_done = refl

put-Placed_example : Placed cells opens 0 10000 possible key (data_at 160) group_after
put-Placed_example =
    put-Placed cells opens 0 10000 possible key (data_at 160) group group_after (omega arith)
      (omega arith) (omega arith) put_done

-- A holder is opened, and restarted while another task writes and closes it.
abbrev ready : Shared ℕ
ready = record { state = running 5; protected = free; panicked = false }

restarted :
    Reach {S = ℕ} (finish_init 6 (record ready { state = initializing; protected = opening }))
unfolding finish_init set_ready reset
restarted =
    next
      (next
        (next
          (next (next (next here (opened new_shared 4 refl)) (acquire _ refl)) (access _ 4 5 refl))
          (close _))
        (reset_storage _ refl))
      (opened _ 6 refl)

Reach-IsSound_example :
    IsSound {S = ℕ} (finish_init 6 (record ready { state = initializing; protected = opening }))
Reach-IsSound_example = Reach-IsSound restarted
