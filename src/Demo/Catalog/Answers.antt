-- ===== src/Demo/Catalog/Answers.antt =====
-- What the catalog answers, on every branch.

use ai_protocol.Base.{
  Bool-cases, ℕ, ◌≡◌, refl, sym, ◌∙◌, ◌≢◌, ◌↔◌, inl, inr, Bool, true, false, Option, none, some,
  List, [], ◌∷◌, arith,
}
use ai_protocol.Base.Int.{ℤ, pos, negsuc, eq_ℤ}
use ai_protocol.Base.Lists.{first}
use ai_protocol.Base.Search.{contains, OccursIn, contains_iff, Picks, keep-Picks}
use ai_protocol.Base.Text.{codes}
use ai_protocol.Result.{ok}
use ai_protocol.Release.Name.{Text, eq_text, eq_text_iff}
use ai_protocol.Demo.Catalog.{
  Product, products, product, found, Reply, Params, Library, send_error, is_id, product_reply,
  product_id, query_of, get_product, search_products, answer, do_get,
}

-- The one with a property that comes first, or that there is none.
pub data IsFirst {A : Type 0} (P : A → Type 0) : List A → Option A → Type 0 where
  nothing : IsFirst P [] none
  this : {x : A} {xs : List A} → P x → IsFirst P (x ∷ xs) (some x)
  a_later_one : {x : A} {xs : List A} {o : Option A} → ¬ P x → IsFirst P xs o → IsFirst P (x ∷ xs) o

pub first-IsFirst :
    {A : Type 0} (p : A → Bool) (P : A → Type 0) (xs : List A)
    → ((x : A) → (p x ≡ true) ↔ P x)
    → IsFirst P xs (first p xs)
first-IsFirst p P [] iff = nothing
first-IsFirst p P (x ∷ xs) iff = elim (Bool-cases (p x)) [
  | inl has ↦ rw has (this ((iff x).0 has))
  | inr lacks ↦ rw lacks (
      a_later_one (λ h. let both : false ≡ true = sym lacks ∙ (iff x).1 h in cc)
        (first-IsFirst p P xs iff))
]

pub eq_ℤ_iff : (m : ℕ) (n : ℤ) → (eq_ℤ (pos m) n ≡ true) ↔ (pos m ≡ n)
eq_ℤ_iff m (pos n) = (λ h. ground arith, λ h. ground arith)
eq_ℤ_iff m (negsuc n) = (λ h. ground arith, λ h. ground arith)

-- The answer to a request, by its path and its parameters.
pub data Serves (lib : Library) (path : Text) (params : Params) : Reply → Type 0 where
  not_found :
      path ≢ codes "/products/get"
      → path ≢ codes "/products/search"
      → Serves lib path params (send_error 404)
  bad_request :
      path ≡ codes "/products/get"
      → product_id lib params ≡ none
      → Serves lib path params (send_error 400)
  got :
      {n : ℤ} {o : Option Product}
      → path ≡ codes "/products/get"
      → product_id lib params ≡ some n
      → IsFirst (λ p. pos p.id ≡ n) products o
      → Serves lib path params (record { status = 200; body = product o })
  searched :
      {ps : List Product}
      → path ≡ codes "/products/search"
      → Picks (λ p. OccursIn (query_of lib params) (lib.lower p.name)) products ps
      → Serves lib path params (record { status = 200; body = found ps })

product_reply-Serves :
    (lib : Library) (path : Text) (params : Params) (o : Option ℤ)
    → path ≡ codes "/products/get"
    → product_id lib params ≡ o
    → Serves lib path params (product_reply o)
product_reply-Serves lib path params none e h = bad_request e h
product_reply-Serves lib path params (some n) e h =
    got e h (first-IsFirst (is_id n) (λ p. pos p.id ≡ n) products (λ p. eq_ℤ_iff p.id n))

get_product-Serves :
    (lib : Library) (path : Text) (params : Params)
    → path ≡ codes "/products/get"
    → Serves lib path params (get_product lib params)
unfolding get_product
get_product-Serves lib path params e =
    product_reply-Serves lib path params (product_id lib params) e refl

pub not_text : (s t : Text) → eq_text s t ≡ false → s ≢ t
not_text s t h e = let both : false ≡ true = sym h ∙ (eq_text_iff s t).1 e in cc

answer-Serves :
    (lib : Library) (path : Text) (params : Params)
    → Serves lib path params (answer lib path params)
unfolding answer search_products
answer-Serves lib path params = elim (Bool-cases (eq_text path (codes "/products/get"))) [
  | inl get ↦
      rw get (get_product-Serves lib path params ((eq_text_iff path (codes "/products/get")).0 get))
  | inr no_get ↦ elim (Bool-cases (eq_text path (codes "/products/search"))) [
    | inl search' ↦ rw no_get (
        rw search' (
          searched ((eq_text_iff path (codes "/products/search")).0 search') (
            keep-Picks (λ p. contains (query_of lib params) (lib.lower p.name))
              (λ p. OccursIn (query_of lib params) (lib.lower p.name)) products
              (λ p. contains_iff (query_of lib params) (lib.lower p.name)))))
    | inr no_search ↦
        rw no_get (rw no_search (not_found (not_text path _ no_get) (not_text path _ no_search)))
  ]
]

-- Every request whose target can be parsed is answered: 404 on a path that is neither of the two;
-- 400 where the id is missing or no integer; else 200 with the product of that id, or none if there
-- is none, or, for a search, with exactly the products in whose lowered name the lowered query
-- occurs, in order.
pub do_get-Serves :
    (lib : Library) (target path query : Text)
    → lib.urlparse target ≡ ok (path, query)
    → (r : Reply) × (do_get lib target ≡ ok r) × Serves lib path (lib.parse_qs query) r
unfolding do_get
do_get-Serves lib target path query e =
    (answer lib path (lib.parse_qs query), rw e refl, answer-Serves lib path (lib.parse_qs query))
