-- ===== src/App/Journal/Guarded.antt =====
-- A reservation stays in the journal and in its file until its tombstone is too old.
use twitch_miner_rust.Base.{
  ◌≡◌, refl, inl, inr, arith, Bool, true, false, not, ◌&&◌, ◌||◌, Option, none, some, [], ◌∷◌,
  is_empty, is_some_and, unwrap_or, ltb, Bool-cases,
}
use twitch_miner_rust.Base.Int.{ℤ, leb_ℤ}
use twitch_miner_rust.Base.Map.{Map, get-insert, get-remove}
use twitch_miner_rust.Base.Map
use twitch_miner_rust.Base.Text.{Text, text_eq, text_eq_iff}
use twitch_miner_rust.App.Journal.{
  max_journal_bytes, PendingPlacement, JournalCodec, JournalSnapshot, JournalState, Write, written,
  failed, unsynced, is_unresolved, keeps, retained, snapshot,
}
use twitch_miner_rust.App.Journal.Files.{end_write, write_file, persist}

-- The placements have an entry of a key that no pruning at a cutoff up to `horizon` removes.
unfoldable pub holds : ℤ → Text → Map PendingPlacement → Bool
holds horizon key m = is_some_and (Map.get key m) (keeps horizon)

keeps_earlier :
    (horizon cutoff : ℤ) (entry : PendingPlacement)
    → leb_ℤ cutoff horizon ≡ true
    → keeps horizon entry ≡ true
    → keeps cutoff entry ≡ true
unfolding keeps
keeps_earlier horizon cutoff entry h g =
    kept_earlier horizon cutoff
      (unwrap_or entry.resolved_at_unix_seconds entry.reserved_at_unix_seconds)
      (is_unresolved entry) h g
  where
    kept_earlier :
        (a b n : ℤ) (u : Bool)
        → leb_ℤ b a ≡ true
        → (u || leb_ℤ a n) ≡ true
        → (u || leb_ℤ b n) ≡ true
    kept_earlier a b n true h g = refl
    kept_earlier a b n false h g = ground (arith, h, g)

pub holds-retained :
    (horizon cutoff : ℤ) (key : Text) (m : Map PendingPlacement)
    → leb_ℤ cutoff horizon ≡ true
    → holds horizon key m ≡ true
    → holds horizon key (retained cutoff m) ≡ true
unfolding holds retained Map.get
holds-retained horizon cutoff key [] h g = ground (arith, g)
holds-retained horizon cutoff key ((k, entry) ∷ m) h g = elim (Bool-cases (text_eq k key)) [
  | inl e ↦
      let stays : keeps horizon entry ≡ true = rw e at g in
      rw (keeps_earlier horizon cutoff entry h stays, e) stays
  | inr e ↦
      let later = holds-retained horizon cutoff key m h (rw e at g) in
      elim (Bool-cases (keeps cutoff entry)) [ inl f ↦ rw (f, e) later | inr f ↦ rw f later ]
]

pub holds-insert :
    (horizon : ℤ) (key k : Text) (entry : PendingPlacement) (m : Map PendingPlacement)
    → (text_eq k key ≡ true → keeps horizon entry ≡ true)
    → holds horizon key m ≡ true
    → holds horizon key (Map.insert k entry m) ≡ true
unfolding holds
holds-insert horizon key k entry m h g = elim (Bool-cases (text_eq k key)) [
  | inl e ↦ rw (get-insert k key entry m, e) (h e)
  | inr e ↦ rw (get-insert k key entry m, e) g
]

pub holds-remove :
    (horizon : ℤ) (key k : Text) (m : Map PendingPlacement)
    → text_eq k key ≡ false
    → holds horizon key m ≡ true
    → holds horizon key (Map.remove k m) ≡ true
unfolding holds
holds-remove horizon key k m e g = rw (get-remove k key m, e) g

-- An entry of a missing key is not that of a held one.
pub holds-other :
    (horizon : ℤ) (key k : Text) (m : Map PendingPlacement)
    → holds horizon key m ≡ true
    → Map.get k m ≡ none
    → text_eq k key ≡ false
unfolding holds
holds-other horizon key k m g h = elim (Bool-cases (text_eq k key)) [
  | inr e ↦ e
  | inl e ↦ let same = (text_eq_iff k key).0 e in ground (arith, g, rw same at h)
]

pub holds-is_empty :
    (horizon : ℤ) (key : Text) (m : Map PendingPlacement)
    → holds horizon key m ≡ true
    → is_empty m ≡ false
unfolding holds Map.get
holds-is_empty horizon key [] g = ground (arith, g)
holds-is_empty horizon key (x ∷ m) g = refl

module _ (c : JournalCodec) (horizon : ℤ) (key : Text) where
  unfoldable pub read_holds : Option JournalSnapshot → Bool
  unfolding holds
  read_holds none = false
  read_holds (some s) = holds horizon key s.placements

  -- The file, read, has an entry of the key.
  unfoldable pub file_holds : Option c.Bytes → Bool
  unfolding read_holds
  file_holds none = false
  file_holds (some bytes) = read_holds (c.decode bytes)

  -- The journal and its file have an entry of the key that pruning keeps.
  unfoldable pub guards : JournalState c.Bytes → Bool
  unfolding file_holds
  guards j = j.path && holds horizon key j.placements && file_holds j.file

  file_holds-end_write :
      (w : Write) (file : Option c.Bytes) (bytes : c.Bytes)
      → file_holds (some bytes) ≡ true
      → file_holds file ≡ true
      → file_holds (end_write c w file bytes).1 ≡ true
  unfolding end_write
  file_holds-end_write written file bytes a b = a
  file_holds-end_write failed file bytes a b = b
  file_holds-end_write unsynced file bytes a b = a

  -- What was serialized is read back.
  pub file_holds-encode :
      (m : Map PendingPlacement) (bytes : c.Bytes)
      → c.encode (snapshot m) ≡ some bytes
      → holds horizon key m ≡ true
      → file_holds (some bytes) ≡ true
  unfolding file_holds
  file_holds-encode m bytes e g = rw (c.decode_encode (snapshot m) bytes e) g

  file_holds-write_file :
      (w : Write) (file : Option c.Bytes) (m : Map PendingPlacement) (o : Option c.Bytes)
      → c.encode (snapshot m) ≡ o
      → holds horizon key m ≡ true
      → file_holds file ≡ true
      → file_holds (write_file c w file o).1 ≡ true
  unfolding write_file file_holds
  file_holds-write_file w file m none e g h = h
  file_holds-write_file w file m (some bytes) e g h =
      let now = file_holds-encode m bytes e g in
      elim (Bool-cases (ltb max_journal_bytes (c.size bytes))) [
        | inl f ↦ rw f h
        | inr f ↦ rw f (file_holds-end_write w file bytes now h)
      ]

  pub file_holds-persist :
      (w : Write) (j : JournalState c.Bytes) (m : Map PendingPlacement)
      → holds horizon key m ≡ true
      → file_holds j.file ≡ true
      → file_holds (persist c w j m).1 ≡ true
  unfolding persist
  file_holds-persist w j m g h = elim (Bool-cases (not j.path)) [
    | inl e ↦ rw e h
    | inr e ↦
        rw (e, holds-is_empty horizon key m g)
          (file_holds-write_file w j.file m (c.encode (snapshot m)) refl g h)
  ]
