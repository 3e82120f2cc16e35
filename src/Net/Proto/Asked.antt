-- ===== src/Net/Proto/Asked.antt =====
-- src/net/proto.rs: what a request that passes may ask for.
use yank.Prelude.{
  ◌≤◌, ◌≡◌, true, false, List, [], ◌∷◌, map, any, All, length, leb, arith, ok, ensure, >>-eq-ok,
  ensure-eq-ok, leb→le, too_many_asked, asked_twice,
}
use yank.Prelude.Bytes.{Bytes, eq_list}
use yank.Files.Crates.{Hash}
use yank.Files.Manifest.{max_files}
use yank.Files.Manifest.Sorted.{Distinct}
use yank.Net.Proto.{ContentRequest, contents, all_new, validate_ask}

abbrev pub hashes : List ContentRequest → List Bytes
hashes = map (λ request. request.hash.bytes)

all_new-All :
    (h : Bytes) (seen : List Hash) (requests : List ContentRequest)
    → ((q : Bytes) → any (λ hash. eq_list hash.bytes q) seen ≡ false → eq_list h q ≡ false)
    → all_new seen requests ≡ true
    → All (λ q. eq_list h q ≡ false) (hashes requests)
unfolding all_new
all_new-All h seen [] known fresh = tt
all_new-All h seen (request ∷ requests) known fresh = (
  known request.hash.bytes (ground (arith, fresh)),
  all_new-All h (request.hash ∷ seen) requests (λ q e. known q (ground (arith, e)))
      (ground (arith, fresh)),
)

all_new-Distinct :
    (seen : List Hash) (requests : List ContentRequest)
    → all_new seen requests ≡ true
    → Distinct (hashes requests)
unfolding all_new
all_new-Distinct seen [] fresh = tt
all_new-Distinct seen (request ∷ requests) fresh = (
  all_new-All request.hash.bytes (request.hash ∷ seen) requests (λ q e. ground (arith, e))
      (ground (arith, fresh)),
  all_new-Distinct (request.hash ∷ seen) requests (ground (arith, fresh)),
)

-- A request for contents that passes asks for at most as many as a clip may name, and for none twice.
pub validate_ask-Distinct :
    (requests : List ContentRequest)
    → validate_ask (contents requests) ≡ ok tt
    → (length requests ≤ max_files) × Distinct (hashes requests)
unfolding validate_ask
validate_ask-Distinct requests h =
    let (few, h1) = >>-eq-ok (ensure (leb (length requests) max_files) too_many_asked) _ h in
    let (fresh, _) = >>-eq-ok (ensure (all_new [] requests) asked_twice) (ok tt) h1 in
    (leb→le _ _ (ensure-eq-ok _ _ few), all_new-Distinct [] requests (ensure-eq-ok _ _ fresh))
