-- ===== src/Api/Types.antt =====
-- backend/api/api.go: the responses and the errors. A type name is the text that Go's conversion
-- makes of the stored field.
use alma_backend_task.Prelude.{String, Option, none, some, List, [], ◌∷◌, Result, ok, err, panic}
use alma_backend_task.GoMap.{Map}
use alma_backend_task.Value.{as_str}
use alma_backend_task.Db.Types.{Record, Error, Outcome, at, set_at}
use alma_backend_task.Db.Batch.{or_nil}

pub record CatalogComponentResponse : Type 0 where
  pub component_type : String
  pub value : String
  pub piis : List String

pub record AppItemResponse : Type 0 where
  pub name : String
  pub type : String
  pub components : List CatalogComponentResponse

pub record CatalogResponse : Type 0 where
  pub app_items : Map String AppItemResponse

pub record ConnectionComponentResponse : Type 0 where
  pub component_type : String
  pub value : String

pub record ConnectionResponse : Type 0 where
  pub source : String
  pub destination : String
  pub components : List ConnectionComponentResponse

-- The error of `errors.Join`, and that of a component id which no component has.
pub data ApiError : Type 0 where
  joined : List Error → ApiError
  component_not_found : String → ApiError

abbrev pub Answer : Type 0 → Type 0
Answer = Result ApiError

-- `str(rec[k])`: a missing field, or one that holds no text, reads as the empty text.
abbrev pub text_of : String → Record → String
text_of k r = as_str (or_nil (at k r))

-- One goroutine: what it fetched, nil beside an error, and the error, if any.
abbrev pub fetched : {A : Type 0} → Outcome A → Answer (Option A × List Error)
fetched (ok a) = ok (some a, [])
fetched (err e) = ok (none, e ∷ [])
fetched panic = panic

-- `if err := errors.Join(…); err != nil { return nil, err }`
abbrev pub none_of : List Error → Answer Unit
none_of [] = ok tt
none_of (e ∷ es) = err (joined (e ∷ es))

unfoldable pub build_catalog_component : Record → List String → CatalogComponentResponse
build_catalog_component r piis = record {
  component_type = text_of "component_type" r;
  value = text_of "value" r;
  piis = piis;
}

unfoldable pub build_connection_component : Record → ConnectionComponentResponse
build_connection_component r = record {
  component_type = text_of "component_type" r;
  value = text_of "value" r;
}

-- `for _, r := range rs { m[key(r)] = val(r) }`
unfoldable pub set_each :
    {V : Type 0} → (Record → String) → (Record → V) → List Record → Map String V → Map String V
set_each key val [] m = m
set_each key val (r ∷ rs) m = set_each key val rs (set_at (key r) (val r) m)
