-- ===== src/Json.antt =====
-- The values that Python's `json` module reads and writes, and a text as that module sees it: the
-- text of a value, or no JSON text. Which bytes spell a value is left to the module.
use shard_net.Base.{
  ℕ, ℤ, pos, String, Bool, Option, none, some, List, [], ◌∷◌, ◌==◌, text_eq, if◌then◌else◌,
}

-- `float` keeps a number with a fraction or an exponent as its spelling.
mutual
  pub data Json : Type 0 where
    null : Json
    bool : Bool → Json
    int : ℤ → Json
    float : String → Json
    str : String → Json
    arr : Items → Json
    obj : Fields → Json

  pub data Items : Type 0 where
    nil : Items
    cons : Json → Items → Items

  pub data Fields : Type 0 where
    end : Fields
    field : String → Json → Fields → Fields

-- `doc j` is any text that `json.loads` reads as `j`; `junk s` is one that it refuses.
pub data Text : Type 0 where
  doc : Json → Text
  junk : String → Text

abbrev pub dumps : Json → Text
dumps = doc

-- `none` stands for `json.JSONDecodeError`.
abbrev pub loads : Text → Option Json
loads (doc j) = some j
loads (junk s) = none

abbrev pub to_list : Items → List Json
to_list nil = []
to_list (cons j js) = j ∷ to_list js

abbrev pub of_list : List Json → Items
of_list [] = nil
of_list (j ∷ js) = cons j (of_list js)

-- `dict.get(key)`; of two equal keys the later one counts, and `json` keeps only that one.
abbrev pub get_field : String → Fields → Option Json
get_field k end = none
get_field k (field name j rest) = if name == k then some j else get_field k rest

abbrev pub ints : List ℕ → Items
ints [] = nil
ints (n ∷ ns) = cons (int (pos n)) (ints ns)

abbrev pub strs : List String → Items
strs [] = nil
strs (s ∷ ss) = cons (str s) (strs ss)

-- `dict[key] = value`.
abbrev pub set_field : String → Json → Fields → Fields
set_field k v end = field k v end
set_field k v (field name j rest) =
    if name == k then field k v rest else field name j (set_field k v rest)
