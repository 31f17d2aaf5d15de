-- ===== src/Source/Http/Serve.antt =====
-- The promises of the admin endpoint.
use chaotic.Base.{
  ◌≤◌, ◌<◌, ◌≡◌, ◌≢◌, ◌∙◌, ◌⊎◌, refl, Bool, true, false, if◌then◌else◌, Option, none, some, is_some,
  Text, lookup, arith, inl, inr,
}
use chaotic.Engine.World.{Engine, hits, all_hits}
use chaotic.Engine.Rule.{Store}
use chaotic.Engine.Lint.{LintMode}
use chaotic.Source.Http.Table.{empty-IsTable}
use chaotic.Source.Http.{
  Imports, Handler, Response, Route, get_whole, list_rules, post_whole, rule_count, put_rule,
  delete_rule, status, panicked, read_body, dispatch, get_document, serve_http, authorized,
  read_only, not_found, unauthorized, listing, list_hits, count_of, new,
}
use chaotic.Source.Http.Rebuild.{AlwaysWrites}
use chaotic.Source.Http.Edits.{Effect, lookup-view}
use chaotic.Source.Http.Requests.{post_body-Answers, put_body-Answers, delete_spec-Answers}
use chaotic.Source.Http.Answering.{IsValid, IsSame, Answers, view_of, refusal}

read_body-some : (raw : Option Text) (b : Text) → read_body raw ≡ some b → raw ≡ some b
unfolding read_body
read_body-some none b h = cc
read_body-some (some body) b h = ground (arith, h)

-- A request that reads.
reads :
    (lib : Imports) (route : Route) (h : Handler) (r : Response)
    → IsValid lib h
    → r ≢ panicked
    → status r < 400
    → Effect lib route (view_of h) (view_of h)
    → Answers lib route h (h, r)
reads lib route h r v p s e = (v, p, inr (s, e))

read_only-Answers :
    (lib : Imports) (route : Route) (h : Handler)
    → IsValid lib h
    → Answers lib route h (h, read_only)
unfolding status
read_only-Answers lib route h v = refusal lib route h read_only v (λ e. cc) (omega arith)

if-Answers :
    (lib : Imports) (route : Route) (h : Handler) (b : Bool) (x y : Handler × Response)
    → (b ≡ true → Answers lib route h x)
    → Answers lib route h y
    → Answers lib route h (if b then x else y)
if-Answers lib route h true x y k l = k refl
if-Answers lib route h false x y k l = l

get_document-status :
    (doc : Option Text) → (get_document doc ≢ panicked) × (status (get_document doc) < 400)
unfolding get_document status
get_document-status none = ((λ e. cc), omega arith)
get_document-status (some doc) = ((λ e. cc), omega arith)

dispatch-Answers :
    (lib : Imports) (route : Route) (h : Handler)
    → AlwaysWrites lib
    → IsValid lib h
    → Answers lib route h (dispatch lib route h)
unfolding dispatch
dispatch-Answers lib get_whole h w v =
    let (p, s) = get_document-status h.current in
    reads lib get_whole h (get_document h.current) v p s refl
dispatch-Answers lib list_rules h w v =
    reads lib list_rules h (listing (list_hits h.order (all_hits h.eng))) v (λ e. cc)
      (unfold status in omega arith) refl
dispatch-Answers lib (post_whole raw) h w v =
    if-Answers lib (post_whole raw) h h.writable _ _
      (λ may. post_body-Answers lib raw (read_body raw) h w v (read_body-some raw))
      (read_only-Answers lib (post_whole raw) h v)
dispatch-Answers lib (rule_count name) h w v =
    if-Answers lib (rule_count name) h (is_some (lookup name h.specs)) _ _
      (λ there.
        reads lib (rule_count name) h (count_of (hits name h.eng)) v (λ e. cc)
          (unfold status in omega arith)
          (refl, lookup-view name h.order h.specs ∙ v.table.keyed name ∙ there))
      (refusal lib (rule_count name) h not_found v (λ e. cc) (unfold status in omega arith))
dispatch-Answers lib (put_rule name raw) h w v =
    if-Answers lib (put_rule name raw) h h.writable _ _
      (λ may. put_body-Answers lib name raw (read_body raw) h w v (read_body-some raw))
      (read_only-Answers lib (put_rule name raw) h v)
dispatch-Answers lib (delete_rule name) h w v =
    if-Answers lib (delete_rule name) h h.writable _ _ (λ may. delete_spec-Answers lib name h w v)
      (read_only-Answers lib (delete_rule name) h v)

guard-Answers :
    (lib : Imports) (header : Text) (route : Route) (h : Handler) (auth : Option (Text → Bool))
    → AlwaysWrites lib
    → IsValid lib h
    → Answers lib route h (elim auth [
      | none ↦ dispatch lib route h
      | some check ↦ if authorized check header then dispatch lib route h else (h, unauthorized)
    ])
guard-Answers lib header route h none w v = dispatch-Answers lib route h w v
guard-Answers lib header route h (some check) w v =
    if-Answers lib route h (authorized check header) _ _ (λ may. dispatch-Answers lib route h w v)
      (refusal lib route h unauthorized v (λ e. cc) (unfold status in omega arith))

serve_http-Answers :
    (lib : Imports) (header : Text) (route : Route) (h : Handler)
    → AlwaysWrites lib
    → IsValid lib h
    → Answers lib route h (serve_http lib header route h)
unfolding serve_http
serve_http-Answers lib header route h w v = guard-Answers lib header route h h.auth w v

pub new-IsValid :
    (lib : Imports) (e : Engine) (s : Store) (writable : Bool) (auth : Option (Text → Bool))
    (lint : LintMode)
    → IsValid lib (new e s writable auth lint)
unfolding new lookup
new-IsValid lib e s writable auth lint = record {
  table = empty-IsTable lib.std;
  buildable = λ n spec found. cc;
  shown = inl (refl, refl);
}

-- Where documents can always be written, every request keeps the handler's invariant, and none
-- panics (which would leave its lock held): the order has each name of the specs once, each spec
-- stands under its own name and builds, and once a request has set any, the engine runs exactly the
-- rules that `BuildRule` gives for these specs, in this order and each with a hit counter, and the
-- served document is that of the specs.
pub serve_http-IsValid :
    (lib : Imports) (header : Text) (route : Route) (h : Handler)
    → AlwaysWrites lib
    → IsValid lib h
    → IsValid lib (serve_http lib header route h).0 × ((serve_http lib header route h).1 ≢ panicked)
serve_http-IsValid lib header route h w v =
    let (v', p, _) = serve_http-Answers lib header route h w v in (v', p)

-- Where documents can always be written, the handler of an admissible state implements one ordered
-- map from names to specs: a request that succeeds changes it as its route says (a PUT of a rule
-- inserts the one spec that its body parses to, a DELETE removes a name that is there, a document
-- loads anew, the others read), and a request that is answered by an error changes neither the map
-- nor the engine nor the served document.
pub serve_http-refines :
    (lib : Imports) (header : Text) (route : Route) (h : Handler)
    → AlwaysWrites lib
    → IsValid lib h
    → let (h', r) = serve_http lib header route h in
      (400 ≤ status r) × IsSame h h' ⊎ (status r < 400) × Effect lib route (view_of h) (view_of h')
serve_http-refines lib header route h w v = (serve_http-Answers lib header route h w v).2
