-- ===== src/Samples/Keyed.antt =====
-- A database as a list of entries in which the first one of a key counts.
use ulcer.Prelude.{
  text_lt_total, ◌≡◌, refl, ◌≢◌, ◌↔◌, true, Text, Option, none, some, List, [], ◌∷◌, arith, text_eq,
  text_lt, text_eq_refl, text_eq_comm, text_eq_sound, any, if◌then◌else◌, ◌||◌,
}
use ulcer.Platform.{Entry, IsAscending}

abbrev pub Cells : Type 0
Cells = List (Text × Entry)

abbrev pub entry_at : Cells → Text → Option Entry
entry_at [] j = none
entry_at ((k, e) ∷ d) j = if text_eq k j then some e else entry_at d j

abbrev pub put_cell : Text → Entry → Cells → Cells
put_cell k e d = (k, e) ∷ d

abbrev pub drop_cell : Text → Cells → Cells
drop_cell k [] = []
drop_cell k ((j, e) ∷ d) = if text_eq k j then drop_cell k d else (j, e) ∷ drop_cell k d

abbrev pub insert_key : Text → List Text → List Text
insert_key k [] = k ∷ []
insert_key k (j ∷ ks) =
    if text_lt k j then k ∷ j ∷ ks else if text_eq k j then j ∷ ks else j ∷ insert_key k ks

abbrev pub cell_keys : Cells → List Text
cell_keys [] = []
cell_keys ((k, e) ∷ d) = insert_key k (cell_keys d)

pub entry_at-drop_cell :
    (d : Cells) (k j : Text)
    → entry_at (drop_cell k d) j ≡ (if text_eq k j then none else entry_at d j)
entry_at-drop_cell [] k j = ground arith
entry_at-drop_cell ((i, e) ∷ d) k j = ground (
  arith,
  entry_at-drop_cell d k j,
  text_eq_sound k i,
  text_eq_sound k j,
  text_eq_sound i j,
  text_eq_refl k,
)

insert_key-below :
    (i k : Text) (ks : List Text)
    → text_lt i k ≡ true
    → IsAscending (i ∷ ks)
    → IsAscending (insert_key k ks)
    → IsAscending (i ∷ insert_key k ks)
insert_key-below i k [] lt a b = (lt, tt)
insert_key-below i k (j ∷ ks) lt a b = ground arith

insert_key-IsAscending :
    (k : Text) (ks : List Text) → IsAscending ks → IsAscending (insert_key k ks)
insert_key-IsAscending k [] a = tt
insert_key-IsAscending k (j ∷ []) a = ground (arith, text_lt_total k j)
insert_key-IsAscending k (j ∷ i ∷ ks) a =
    ground
      (arith, text_lt_total k j, insert_key-IsAscending k (i ∷ ks), insert_key-below j k (i ∷ ks))

pub cell_keys-IsAscending : (d : Cells) → IsAscending (cell_keys d)
cell_keys-IsAscending [] = tt
cell_keys-IsAscending ((k, e) ∷ d) =
    insert_key-IsAscending k (cell_keys d) (cell_keys-IsAscending d)

any-insert_key :
    (i k : Text) (ks : List Text)
    → any (text_eq i) (insert_key k ks) ≡ (text_eq i k || any (text_eq i) ks)
any-insert_key i k [] = refl
any-insert_key i k (j ∷ ks) = ground (arith, any-insert_key i k ks, text_eq_sound k j)

pub cell_keys_entries :
    (d : Cells) (k : Text) → (any (text_eq k) (cell_keys d) ≡ true) ↔ (entry_at d k ≢ none)
cell_keys_entries [] k = (λ h. ground arith, λ h. absurd (h refl))
cell_keys_entries ((j, e) ∷ d) k = (
  λ h n.
      ground (arith, any-insert_key k j (cell_keys d), (cell_keys_entries d k).0, text_eq_comm k j),
  λ h.
      ground (arith, any-insert_key k j (cell_keys d), (cell_keys_entries d k).1, text_eq_comm k j),
)
