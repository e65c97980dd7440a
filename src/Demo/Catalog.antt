-- ===== src/Demo/Catalog.antt =====
-- examples/catalog_service.py: the catalog behind the gateway; and the catalogs of
-- examples/dynamic_demo.py and examples/queue_demo.py, which hold their answers back.
pub mod Answers
use ai_protocol.Base.{if◌then◌else◌, ℕ, ◌+◌, Bool, not, Option, none, some, List, [], ◌∷◌}
use ai_protocol.Base.Int.{ℤ, pos, eq_ℤ}
use ai_protocol.Base.Lists.{keep, first}
use ai_protocol.Base.Text.{codes}
use ai_protocol.Base.Search.{contains}
use ai_protocol.Result.{Result, ok, ◌>>=◌}
use ai_protocol.Release.Name.{Text, eq_text, find}

pub record Product : Type 0 where
  pub id : ℕ
  pub name : Text
  pub price : ℕ

abbrev pub products : List Product
products =
    record { id = 1; name = codes "Black boots"; price = 150 }
    ∷ record { id = 2; name = codes "Brown boots"; price = 180 }
    ∷ record { id = 3; name = codes "White sneakers"; price = 120 }
    ∷ []

-- What is sent: the page of `send_error`, or the value that `json.dumps` is given.
pub data Body : Type 0 where
  error_page : Body
  product : Option Product → Body
  found : List Product → Body

pub record Reply : Type 0 where
  pub status : ℕ
  pub body : Body

-- What `parse_qs` returns: each name with its values, of which there is one at least.
abbrev pub Params : Type 0
Params = List (Text × (Text × List Text))

-- The functions of the library that the handler calls: `urlparse` with the path and the query of its
-- result, `parse_qs`, `int` (`none` where it raises `ValueError`) and `str.lower`.
pub record Library : Type 0 where
  pub urlparse : Text → Result (Text × Text)
  pub parse_qs : Text → Params
  pub int : Text → Option ℤ
  pub lower : Text → Text

abbrev pub send_error : ℕ → Reply
send_error status = record { status = status; body = error_page }

-- `item["id"] == product_id`
abbrev pub is_id : ℤ → Product → Bool
is_id n p = eq_ℤ (pos p.id) n

-- The answer to `/products/get`, by the id.
abbrev pub product_reply : Option ℤ → Reply
product_reply none = send_error 400
product_reply (some n) = record { status = 200; body = product (first (is_id n) products) }

module _ (lib : Library) where
  -- `int(params["id"][0])`
  abbrev pub product_id : Params → Option ℤ
  product_id params = elim (find (codes "id") params) [ none ↦ none | some v ↦ lib.int v.0 ]

  -- `params.get("query", [""])[0].lower()`
  abbrev pub query_of : Params → Text
  query_of params = lib.lower (elim (find (codes "query") params) [ none ↦ [] | some v ↦ v.0 ])

  unfoldable pub get_product : Params → Reply
  get_product params = product_reply (product_id params)

  unfoldable pub search_products : Params → Reply
  search_products params = record {
    status = 200;
    body = found (keep (λ p. contains (query_of params) (lib.lower p.name)) products);
  }

  unfoldable pub answer : Text → Params → Reply
  unfolding get_product search_products
  answer path params =
      if eq_text path (codes "/products/get")
      then get_product params
      else if not (eq_text path (codes "/products/search"))
      then send_error 404
      else search_products params

  unfoldable pub do_get : Text → Result Reply
  do_get target = do url ← lib.urlparse target; ok (answer url.0 (lib.parse_qs url.1))

  -- `ControlledCatalog.do_GET` of dynamic_demo.py: one more request has started; a permit comes within
  -- ten seconds, or none does.
  unfoldable pub do_get_paced : ℕ → Bool → Text → ℕ × Result Reply
  do_get_paced started permitted target =
      (started + 1, if not permitted then ok (send_error 503) else do_get target)
