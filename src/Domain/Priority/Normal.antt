-- ===== src/Domain/Priority/Normal.antt =====
-- crates/tm-domain/src/watch.rs: what a normalised list holds.
use twitch_miner_rust.Base.{
  ◌≡◌, refl, Bool, true, false, not, ◌&&◌, ◌||◌, List, [], ◌∷◌, ◌++◌, map, arith, if◌then◌else◌,
  is_empty,
}
use twitch_miner_rust.Base.Text.{Text, text_eq, text_eq_iff, contains, contains-append, trim}
use twitch_miner_rust.Domain.Platform.{Platform}
use twitch_miner_rust.Domain.Priority.{collect_normalized, normalize_list}

abbrev pub normal_form : Platform → Text → Text
normal_form p raw = p.to_lowercase (trim raw)

-- The value that one round adds.
abbrev added : List Text → Text → List Text
added normalized value =
    if not (is_empty value) && not (contains normalized value)
    then normalized ++ value ∷ []
    else normalized

is_empty_eq : (s t : Text) → text_eq s t ≡ true → is_empty s ≡ is_empty t
is_empty_eq s t h = ground (arith, text_eq_iff s t, h)

contains-added :
    (normalized : List Text) (value v : Text)
    → contains (added normalized value) v
      ≡ (contains normalized v || (not (is_empty v) && text_eq value v))
unfolding contains
contains-added normalized value v =
    ground
      (arith, contains-append normalized (value ∷ []) v, text_eq_iff value v, is_empty_eq value v)

contains-collect_normalized :
    (p : Platform) (values normalized : List Text) (v : Text)
    → contains (collect_normalized p normalized values) v
      ≡ (contains normalized v || (not (is_empty v) && contains (map (normal_form p) values) v))
unfolding collect_normalized contains
contains-collect_normalized p [] normalized v = ground arith
contains-collect_normalized p (raw ∷ values) normalized v = ground (
  arith,
  contains-collect_normalized p values (added normalized (normal_form p raw)) v,
  contains-added normalized (normal_form p raw) v,
)

-- No text stands twice.
unfoldable pub is_distinct : List Text → Bool
is_distinct [] = true
is_distinct (s ∷ ss) = not (contains ss s) && is_distinct ss

pub is_distinct-snoc :
    (ss : List Text) (s : Text)
    → is_distinct ss ≡ true
    → contains ss s ≡ false
    → is_distinct (ss ++ s ∷ []) ≡ true
unfolding is_distinct contains
is_distinct-snoc [] s h new = refl
is_distinct-snoc (t ∷ ss) s h new =
    ground (
      arith,
      contains-append ss (s ∷ []) t,
      text_eq_iff s t,
      text_eq_iff t s,
      is_distinct-snoc ss s,
    )

is_distinct-collect_normalized :
    (p : Platform) (values normalized : List Text)
    → is_distinct normalized ≡ true
    → is_distinct (collect_normalized p normalized values) ≡ true
unfolding collect_normalized
is_distinct-collect_normalized p [] normalized h = h
is_distinct-collect_normalized p (raw ∷ values) normalized h =
    is_distinct-collect_normalized p values (added normalized (normal_form p raw))
      (ground (arith, h, is_distinct-snoc normalized (normal_form p raw)))

-- A normalised list holds exactly the values trimmed and in lower case, without the empty one, and
-- none of them twice.
pub normalize_list_lem :
    (p : Platform) (values : List Text) (v : Text)
    → (contains (normalize_list p values) v
        ≡ (not (is_empty v) && contains (map (normal_form p) values) v))
      × (is_distinct (normalize_list p values) ≡ true)
unfolding normalize_list contains is_distinct
normalize_list_lem p values v =
    (contains-collect_normalized p values [] v, is_distinct-collect_normalized p values [] refl)
