-- ===== src/Modify/PrefixLists.antt =====
-- The readers of prefix lists: `readPrefixList` of segments/modify/addcid, addnetid and
-- remoteaddress. A row is what the library's reader of comma-separated values returns: its fields,
-- as octets, or an error; the end of the file ends the list. The prefix tries are outside of this
-- repository: a reader gives the calls of `Insert` of each, in their order. A result of none is a
-- panic on a row without a second field.
pub mod Sorted
use flowpipeline.Base.{
  ℕ, ◌+◌, Bool, true, false, List, [], ◌∷◌, ◌++◌, Option, none, some, ◌==◌, if◌then◌else◌, ◌>>=◌, ℤ,
}

abbrev pub Text : Type 0
Text = List ℕ

pub data Family : Type 0 where
  v4 v6 : Family

-- The loop over the octets of a prefix: the first dot or colon decides.
unfoldable pub family_of : Text → Option Family
family_of [] = none
family_of (c ∷ cs) = if c == 46 then some v4 else if c == 58 then some v6 else family_of cs

-- The calls of `Insert` on the two tries, with the ids of the type I.
pub record Tries (I : Type 0) : Type 0 where
  pub trie_v4 : List (I × Text)
  pub trie_v6 : List (I × Text)
  pub count : ℕ

module _ {I : Type 0} where
  unfoldable pub insert : Option Family → I → Text → Tries I → Tries I
  insert none id prefix t = t
  insert (some v4) id prefix t = record t {
    trie_v4 = t.trie_v4 ++ ((id, prefix) ∷ []);
    count = t.count + 1;
  }
  insert (some v6) id prefix t = record t {
    trie_v6 = t.trie_v6 ++ ((id, prefix) ∷ []);
    count = t.count + 1;
  }

  abbrev pub no_tries : Tries I
  no_tries = record { trie_v4 = []; trie_v6 = []; count = 0 }

  -- A row of `addcid` and `addnetid`, whose id is read first; `id_of` is none where the row is
  -- skipped for an id that is not a number.
  unfoldable pub add_row : (Text → Option I) → List Text → Tries I → Option (Tries I)
  unfolding insert family_of
  add_row id_of [] t = none
  add_row id_of (prefix ∷ []) t = none
  add_row id_of (prefix ∷ id ∷ rest) t = elim (id_of id) [
    | none ↦ some t
    | some i ↦ some (insert (family_of prefix) i prefix t)
  ]

  -- The loop over the file; a row that is not well formed is skipped.
  unfoldable pub read_rows :
      (List Text → Tries I → Option (Tries I))
      → List (Option (List Text))
      → Tries I
      → Option (Tries I)
  read_rows add [] t = some t
  read_rows add (none ∷ rows) t = read_rows add rows t
  read_rows add (some row ∷ rows) t = add row t >>= λ t'. read_rows add rows t'

-- A row of `remoteaddress`, whose id is read when the prefix is inserted.
unfoldable pub add_user : List Text → Tries Text → Option (Tries Text)
unfolding insert family_of
add_user [] t = none
add_user (prefix ∷ []) t = elim (family_of prefix) [ none ↦ some t | some f ↦ none ]
add_user (prefix ∷ id ∷ rest) t = some (insert (family_of prefix) id prefix t)

-- The id of `addnetid`: a number, or the text.
pub data NetId : Type 0 where
  number : ℤ → NetId
  text : Text → NetId

-- `strconv.ParseInt(s, 10, 32)`, without its error.
module _ (parse_int : Text → Option ℤ) where
  unfoldable pub read_cids : List (Option (List Text)) → Option (Tries ℤ)
  unfolding read_rows add_row
  read_cids rows = read_rows (add_row parse_int) rows no_tries

  unfoldable pub net_id_of : Bool → Text → Option NetId
  net_id_of false id = some (text id)
  net_id_of true id = parse_int id >>= λ n. some (number n)

  unfoldable pub read_net_ids : Bool → List (Option (List Text)) → Option (Tries NetId)
  unfolding read_rows add_row net_id_of
  read_net_ids use_int_ids rows = read_rows (add_row (net_id_of use_int_ids)) rows no_tries

unfoldable pub read_users : List (Option (List Text)) → Option (Tries Text)
unfolding read_rows add_user
read_users rows = read_rows add_user rows no_tries
