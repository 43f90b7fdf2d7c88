-- ===== src/Prelude/Json.antt =====
-- JSON values as `json.load` returns them. A number is the text that `json.dump` prints for it.
use Prim.Native.String.{String}
use mathlib.Core.Path.{◌≡◌, refl, ap}
use mathlib.Core.Bool.{Bool, true, false, not, ◌||◌}
use mathlib.Core.List.{List, [], ◌∷◌}
use text.Mathlib.Text.{◌==◌}
use nyc_pa_aws_gitops.Prelude.Dict.{Dict}

mutual
  pub data Json : Type 0 where
    null : Json
    bool : Bool → Json
    num : String → Json
    str : String → Json
    arr : Items → Json
    obj : Fields → Json

  pub data Items : Type 0 where
    nil : Items
    cons : Json → Items → Items

  pub data Fields : Type 0 where
    end : Fields
    field : String → Json → Fields → Fields

abbrev pub to_list : Items → List Json
to_list nil = []
to_list (cons x xs) = x ∷ to_list xs

abbrev pub of_list : List Json → Items
of_list [] = nil
of_list (x ∷ xs) = cons x (of_list xs)

abbrev pub to_dict : Fields → Dict Json
to_dict end = []
to_dict (field k v fs) = (k, v) ∷ to_dict fs

abbrev pub of_dict : Dict Json → Fields
of_dict [] = end
of_dict ((k, v) ∷ d) = field k v (of_dict d)

pub to_dict-of_dict : (d : Dict Json) → to_dict (of_dict d) ≡ d
to_dict-of_dict [] = refl
to_dict-of_dict ((k, v) ∷ d) = ap (λ r. (k, v) ∷ r) (to_dict-of_dict d)

pub to_list-of_list : (l : List Json) → to_list (of_list l) ≡ l
to_list-of_list [] = refl
to_list-of_list (x ∷ l) = ap (λ r. x ∷ r) (to_list-of_list l)

abbrev pub str_items : List String → Items
str_items [] = nil
str_items (x ∷ xs) = cons (str x) (str_items xs)

-- A list of texts.
abbrev pub strs : List String → Json
strs xs = arr (str_items xs)

-- Python's truth value.
unfoldable pub truthy : Json → Bool
truthy null = false
truthy (bool b) = b
truthy (num t) = not (t == "0" || t == "0.0" || t == "-0.0")
truthy (str t) = not (t == "")
truthy (arr nil) = false
truthy (arr (cons x xs)) = true
truthy (obj end) = false
truthy (obj (field k v fs)) = true
