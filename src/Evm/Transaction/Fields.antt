-- ===== src/Evm/Transaction/Fields.antt =====
-- Objects with the fields that the printers set.
use dex_knight.Prelude.{
  ◌≡◌, refl, ap, ◌∙◌, Bool, true, false, Bytes, List, [], ◌∷◌, Option, none, some, same_bytes,
  if◌then◌else◌,
}
use Prim.Native.String.{String}
use dex_knight.Prelude.Chars.{codes}
use dex_knight.External.{External}
use dex_knight.Utils.Fields.{json_array}
use dex_knight.Utils.Fields.Printed.{printed}
use dex_knight.Evm.Transaction.{set_optional, set_text}

-- What boost::json documents of objects: a field holds the value that was set last under its name.
pub record KeepsFields (x : External) : Type 0 where
  pub object_kept : (o : x.Object) → x.as_object (x.of_object o) ≡ some o
  pub field_read :
      (o : x.Object) (f g : String) (v : x.Value)
      → x.if_contains (x.set_field o f v) g
        ≡ (if same_bytes (codes f) (codes g) then some v else x.if_contains o g)
  pub array_kept : (vs : List x.Value) → x.as_array (x.of_array vs) ≡ some vs

pub last_set {ℓ} :
    {A : Type ℓ} (b : Bool) (v w r : A)
    → (if b then v else (if b then w else r)) ≡ (if b then v else r)
last_set true v w r = refl
last_set false v w r = refl

module _ (x : External) (fields : KeepsFields x) where
  -- The value of a field in a list of fields, the last set first.
  abbrev pub Fields : Type 0
  Fields = List (String × x.Value)

  abbrev pub look_up : Fields → x.Object → String → Option x.Value
  look_up [] o g = x.if_contains o g
  look_up ((f, v) ∷ fs) o g = if same_bytes (codes f) (codes g) then some v else look_up fs o g

  -- The object has these fields in front of another one.
  pub record Holds (o : x.Object) (fs : Fields) (start : x.Object) : Type 0 where
    pub found : (g : String) → x.if_contains o g ≡ look_up fs start g

  pub Holds-set_field :
      {o : x.Object} {fs : Fields} {start : x.Object} (f : String) (v : x.Value)
      → Holds o fs start
      → Holds (x.set_field o f v) ((f, v) ∷ fs) start
  Holds-set_field {o} {fs} {start} f v h = record {
    found = λ g.
        fields.field_read o f g v
        ∙ ap (λ r. if same_bytes (codes f) (codes g) then some v else r) (h.found g);
  }

  pub Holds-set_text :
      {o : x.Object} {fs : Fields} {start : x.Object} (f : String) (s : Bytes)
      → Holds o fs start
      → Holds (set_text x f s o) ((f, x.of_string s) ∷ fs) start
  unfolding set_text
  Holds-set_text f s h = Holds-set_field f (x.of_string s) h

  pub Holds-set_optional {ℓ} :
      {A : Type ℓ} {o : x.Object} {fs : Fields} {start : x.Object} (print : A → Bytes) (f : String)
      (v : Option A)
      → Holds o fs start
      → Holds (set_optional x print f v o) ((f, printed x print v) ∷ fs) start
  unfolding set_optional
  Holds-set_optional {o = o} {fs} {start} print f none h = record {
    found = λ g.
        fields.field_read o f g x.null
        ∙ ap (λ r. if same_bytes (codes f) (codes g) then some x.null else r) (h.found g);
  }
  Holds-set_optional {o = o} {fs} {start} print f (some a) h = record {
    found = λ g.
        let b = same_bytes (codes f) (codes g) in
        fields.field_read (x.set_field o f x.null) f g (x.of_string (print a))
        ∙ ap (λ r. if b then some (x.of_string (print a)) else r)
            (fields.field_read o f g x.null ∙ ap (λ r. if b then some x.null else r) (h.found g))
        ∙ last_set b (some (x.of_string (print a))) (some x.null) (look_up fs start g);
  }

-- An array that a field holds.
pub array_read :
    (x : External) (fields : KeepsFields x) (o : x.Object) (field : String) (vs : List x.Value)
    → x.if_contains o field ≡ some (x.of_array vs)
    → json_array x o field ≡ some vs
unfolding json_array
array_read x fields o field vs held = rw held (fields.array_kept vs)
