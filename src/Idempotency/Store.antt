-- ===== src/Idempotency/Store.antt =====
-- internal/infra/idempotency/store.go: the hashes of a request and of a route, and the stored answers.
-- SHA-256, the case tables of Unicode and encoding/json are the fields of a record Codec.
use mkk_luna.Prelude.{
  ℕ, String, Bool, true, false, ◌&&◌, ◌||◌, Option, none, some, List, [], ◌∷◌, ◌++◌, map, leb, ltb,
  ◌==◌, ◌=s◌, if◌then◌else◌, find,
}
use mkk_luna.Prelude.Sort.{sort_by}
use mkk_luna.Text.{codes, trim_space, first_part, text_le, join}
use mkk_luna.Http.{StoredResponse}
use mkk_luna.Redis as Commands
use mkk_luna.Redis.Keys.{Key, Value, stored, text, number, page}
use mkk_luna.World.{Result, ok, err, external, M, pure, command}

pub record Codec : Type 0 where
  -- `strings.ToUpper` and `strings.ToLower`.
  pub to_upper : String → String
  pub to_lower : String → String
  -- The digits of `sha256.Sum256`, and of its first eight bytes.
  pub sum256 : List ℕ → String
  pub short256 : List ℕ → String
  -- `json.Unmarshal` into a value and `json.Marshal` of it; none for an error.
  pub remarshal : String → Option String

abbrev pub Query : Type 0
Query = List (String × List String)

abbrev pub is_key : String → String × List String → Bool
is_key k (k', values) = k' =s k

abbrev pub values_at : Option (String × List String) → List String
values_at none = []
values_at (some (k, values)) = values

abbrev pub text_before : String → String → Bool
text_before s t = text_le (codes s) (codes t)

-- The loop over the values of a key, and that over the keys.
unfoldable pub value_parts : String → List String → List (List ℕ)
value_parts k [] = []
value_parts k (one ∷ rest) = (codes k ++ b'=' ∷ codes one) ∷ value_parts k rest

unfoldable pub query_parts : Query → List String → List (List ℕ)
unfolding value_parts sort_by find
query_parts v [] = []
query_parts v (k ∷ keys) =
    value_parts k (sort_by text_before (values_at (find (is_key k) v))) ++ query_parts v keys

unfoldable pub canonical_query : Query → List ℕ
unfolding query_parts sort_by join
canonical_query v = join (b'&' ∷ []) (query_parts v (sort_by text_before (map (λ p. p.0) v)))

abbrev pub text_or : String → Option String → String
text_or raw none = raw
text_or raw (some b) = b

unfoldable pub canonical_json : Codec → String → String
unfolding trim_space
canonical_json codec raw =
    if trim_space raw =s "" then "" else text_or (trim_space raw) (codec.remarshal (trim_space raw))

unfoldable pub build_request_hash : Codec → String → String → String → Query → String → String
unfolding trim_space first_part canonical_query canonical_json join
build_request_hash codec method route content_type query body = codec.sum256 (
    join (b'\n' ∷ []) (
      codes (codec.to_upper (trim_space method))
      ∷ codes (trim_space route)
      ∷ codes (trim_space (codec.to_lower (first_part b';' content_type)))
      ∷ canonical_query query
      ∷ codes (canonical_json codec body)
      ∷ []))

unfoldable pub build_route_hash : Codec → String → String
unfolding trim_space
build_route_hash codec route = codec.short256 (codes (trim_space route))

unfoldable pub is_cacheable_status : ℕ → Bool
is_cacheable_status status =
    (leb 200 status && ltb status 300)
    || status == 400
    || status == 403
    || status == 404
    || status == 409

-- What GET answers, through `json.Unmarshal`.
abbrev pub unmarshal : Option Value → Result (Option StoredResponse)
unmarshal none = ok none
unmarshal (some (stored r)) = ok (some r)
unmarshal (some (text s)) = err external
unmarshal (some (number n)) = err external
unmarshal (some (page b)) = err external

unfoldable pub get : Bool → Key → M (Option StoredResponse)
unfolding Commands.get
get true key = command (λ now cells. (unmarshal (Commands.get now key cells), cells))
get false key = pure none

unfoldable pub set : Bool → Key → ℕ → StoredResponse → M (Unit {0})
unfolding Commands.set
set true key ttl v = command (λ now cells. (ok tt, Commands.set now key (stored v) ttl cells))
set false key ttl v = pure tt
