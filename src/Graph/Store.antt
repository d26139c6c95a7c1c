-- ===== src/Graph/Store.antt =====
-- What the services on nodes and relationships call: the embedding service over HTTP
-- (common/embedding.rs) and the database over neo4rs.
use atlas_of_us.Text.{format}
use atlas_of_us.Effects.Defs.{err, map_ok, ok_or, and_then, lift, ok, Eff, Result, call, ◌>>=◌}
use atlas_of_us.Graph.Models.{ℤ}
use atlas_of_us.Graph.Mapping.{bolt_float, bolts, bolt_list, no_bolts, BoltType, Bolts}
use atlas_of_us.Graph.Values.{Serde, Value}
use atlas_of_us.Prelude.{String, Bool, Option, List, [], ◌∷◌, if◌then◌else◌}

pub data NodeCall (F : Type 0) : Type 0 where
  post_embedding : String → String → NodeCall F
  execute : String → List (String × BoltType F) → NodeCall F

-- `none` is an error of the conversion.
pub record NodeRow (N F : Type 0) : Type 0 where
  pub get_text : String → Option String
  pub get_int : String → Option ℤ
  pub get_float : String → Option F
  pub get_value : String → Option (Value N)

pub record EmbeddingReply (F : Type 0) : Type 0 where
  pub is_success : Bool
  pub status_text : String
  -- The field `embedding` of each item.
  pub json : Result String (List (List (List F)))

-- serde_json, the variable EMBEDDING_ENDPOINT, and the answers of the two services.
pub record NodeStore : Type 1 where
  pub serde : Serde
  pub embedding_endpoint : Option String
  pub answer_post :
      List (NodeCall serde.floats.F64)
      → String
      → String
      → Result String (EmbeddingReply serde.floats.F64)
  -- The rows come one by one, and reading one may fail.
  pub answer_execute :
      List (NodeCall serde.floats.F64)
      → String
      → List (String × BoltType serde.floats.F64)
      → Result String (List (Result String (NodeRow serde.Number serde.floats.F64)))

module _ (db : NodeStore) where
  abbrev pub Float : Type 0
  Float = db.serde.floats.F64

  abbrev pub StoreRow : Type 0
  StoreRow = NodeRow db.serde.Number Float

  abbrev pub StoreRows : Type 0
  StoreRows = Result String (List (Result String StoreRow))

  abbrev pub Params : Type 0
  Params = List (String × BoltType Float)

  -- Code that fails with an error of the services, or with a text for `Box<dyn Error>`.
  abbrev pub Access : Type 0 → Type 0 → Type 0
  Access E A = Eff (NodeCall Float) E A

  unfoldable pub execute_statement : {E : Type 0} → String → Params → Access E StoreRows
  execute_statement statement params =
      call (NodeCall.execute statement params) (λ h. ok (db.answer_execute h statement params))

  abbrev pub first_embedding : List (List (List Float)) → Result String (List Float)
  first_embedding ((vector ∷ vectors) ∷ items) = ok vector
  first_embedding reply = err "Invalid embedding response"

  abbrev pub read_embedding : EmbeddingReply Float → Result String (List Float)
  read_embedding response =
      if response.is_success
      then and_then response.json first_embedding
      else err (format ("Embedding endpoint returned status: " ∷ response.status_text ∷ []))

  unfoldable pub generate_embedding : String → Access String (List Float)
  generate_embedding text_to_embed = do
    embedding_endpoint ←
        lift (ok_or db.embedding_endpoint "EMBEDDING_ENDPOINT environment variable not set")
    response ←
        call (NodeCall.post_embedding embedding_endpoint text_to_embed)
          (λ h. db.answer_post h embedding_endpoint text_to_embed)
    lift (read_embedding response)

  abbrev pub bolt_floats : List Float → Bolts Float
  bolt_floats [] = no_bolts
  bolt_floats (x ∷ xs) = bolts (bolt_float x) (bolt_floats xs)

  abbrev pub embedding_param : List Float → BoltType Float
  embedding_param xs = bolt_list (bolt_floats xs)

-- What a loop `while let Ok(Some(row)) = result.next().await` sees: it ends at the first error.
abbrev pub read_rows {ℓ} : {A : Type ℓ} → List (Result String A) → List A
read_rows [] = []
read_rows (ok row ∷ rows) = row ∷ read_rows rows
read_rows (err e ∷ rows) = []

-- The same loop with `result.next().await?`.
abbrev pub collect_rows {ℓ} : {A : Type ℓ} → List (Result String A) → Result String (List A)
collect_rows [] = ok []
collect_rows (ok row ∷ rows) = map_ok (λ rest. row ∷ rest) (collect_rows rows)
collect_rows (err e ∷ rows) = err e
