-- ===== src/Tests/Signaling.antt =====
-- The protocol over a concrete library of JSON values.
use driscord.Common.{
  ◌≡◌, refl, ap, Bool, true, false, List, [], ◌∷◌, Option, none, some, String, str_eq,
  if◌then◌else◌,
}
use driscord.Signaling.{Message, welcome, value, unexpected, missing_type}
use driscord.Signaling.Json.{JsonLibrary}
use driscord.Signaling.Encode.{encode, dump}
use driscord.Signaling.Parse.{find_string, required_string, parse_json, parse}
use driscord.Signaling.RoundTrip.{parse-dump}
use driscord.Signaling.Accepts.{parse-dump-parse}

-- Values as trees.
mutual
  data Tree : Type 0 where
    null : Tree
    text : String → Tree
    list : Trees → Tree
    node : Entries → Tree

  data Trees : Type 0 where
    nil : Trees
    cons : Tree → Trees → Trees

  data Entries : Type 0 where
    end : Entries
    entry : Entries → String → Tree → Entries

abbrev trees : List Tree → Trees
trees [] = nil
trees (v ∷ vs) = cons v (trees vs)

abbrev elements : Trees → List Tree
elements nil = []
elements (cons v vs) = v ∷ elements vs

elements-trees : (vs : List Tree) → elements (trees vs) ≡ vs
elements-trees [] = refl
elements-trees (v ∷ vs) = ap (◌∷◌ v) (elements-trees vs)

abbrev tree_find : Entries → String → Option Tree
tree_find end k = none
tree_find (entry o j v) k = if str_eq j k then some v else tree_find o k

abbrev tree_object : Tree → Option Entries
tree_object (node o) = some o
tree_object v = none

abbrev tree_text : Tree → Option String
tree_text (text s) = some s
tree_text v = none

abbrev tree_list : Tree → Option (List Tree)
tree_list (list vs) = some (elements vs)
tree_list v = none

abbrev tree_is_null : Tree → Bool
tree_is_null null = true
tree_is_null v = false

abbrev tree_array : List Tree → Tree
tree_array vs = list (trees vs)

tree_list-array : (vs : List Tree) → tree_list (tree_array vs) ≡ some vs
tree_list-array vs = ap some (elements-trees vs)

-- A library that reads every text as one tree.
abbrev only : Tree → JsonLibrary
only v = record {
  Json = Tree;
  Object = Entries;
  as_object = tree_object;
  as_string = tree_text;
  as_array = tree_list;
  is_null = tree_is_null;
  object = node;
  string = text;
  array = tree_array;
  null = null;
  empty = end;
  assign = entry;
  find = tree_find;
  dump_text = λ _. "{}";
  parse_text = λ _. some v;
  as_object-object = λ o. refl;
  as_string-string = λ s. refl;
  as_string-null = refl;
  as_array-array = tree_list-array;
  is_null-string = λ s. refl;
  is_null-null = refl;
  find-empty = λ k. refl;
  find-assign = λ o k j w. refl;
}

abbrev greeting : Message
greeting = welcome "me" (record { id = "you"; username = "" } ∷ []) ("you" ∷ [])

abbrev greeting_tree : Tree
greeting_tree = node (
    entry
      (entry (entry (entry end "type" (text "welcome")) "id" (text "me")) "peers"
        (list (cons (node (entry (entry end "id" (text "you")) "username" (text ""))) nil)))
      "streaming_peers" (list (cons (text "you") nil)))

greeting_encoded : encode (only greeting_tree) greeting ≡ greeting_tree
unfolding encode
greeting_encoded = refl

parse-dump_example :
    parse (only greeting_tree) (dump (only greeting_tree) greeting) ≡ value greeting
unfolding encode
parse-dump_example = parse-dump (only greeting_tree) greeting refl (refl, (refl, tt), (refl, tt))

abbrev rejected_tree : Tree
rejected_tree = node (entry end "type" (list nil))

rejected : parse (only rejected_tree) "{}" ≡ unexpected missing_type
unfolding parse parse_json required_string find_string
rejected = refl

parse-dump-parse_example :
    parse (only greeting_tree) (dump (only greeting_tree) greeting) ≡ value greeting
unfolding encode dump
parse-dump-parse_example =
    parse-dump-parse (only greeting_tree) "{}" greeting refl
      (parse-dump (only greeting_tree) greeting refl (refl, (refl, tt), (refl, tt)))
