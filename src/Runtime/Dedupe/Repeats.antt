-- ===== src/Runtime/Dedupe/Repeats.antt =====
-- crates/tm-runtime/src/state.rs: an identity that was remembered is refused the next time.
use twitch_miner_rust.Base.{◌≡◌, inl, inr, true, false, not, List, arith}
use twitch_miner_rust.Base.Text.{Text, is_blank, contains}
use twitch_miner_rust.Runtime.Dedupe.{remember_mutation_id}
use twitch_miner_rust.Runtime.Dedupe.Bounds.{remember_mutation_id-Remembers}
use twitch_miner_rust.Runtime.Dedupe.Markers.{contains-IsPushed}

-- What is not blank stands in the queue after it is remembered.
pub contains-remember_mutation_id :
    (values : List Text) (value : Text)
    → is_blank value ≡ false
    → contains (remember_mutation_id values value).0 value ≡ true
contains-remember_mutation_id values value h = elim (remember_mutation_id-Remembers values value) [
  | inl (e, _, same) ↦ rw same (ground (arith, h, e))
  | inr (_, _, pushed) ↦ contains-IsPushed values (remember_mutation_id values value).0 value pushed
]

-- And what stands there is refused.
pub remember_mutation_id_known :
    (values : List Text) (value : Text)
    → contains values value ≡ true
    → remember_mutation_id values value ≡ (values, false)
unfolding remember_mutation_id
remember_mutation_id_known values value h = ground (arith, h)

-- Whether an identity that is not blank is new.
pub remember_mutation_id_fresh :
    (values : List Text) (value : Text)
    → is_blank value ≡ false
    → (remember_mutation_id values value).1 ≡ not (contains values value)
remember_mutation_id_fresh values value h = elim (remember_mutation_id-Remembers values value) [
  | inl (e, refused, _) ↦ rw refused (ground (arith, h, e))
  | inr (e, added, _) ↦ rw added (ground (arith, h, e))
]
