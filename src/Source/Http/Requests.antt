-- ===== src/Source/Http/Requests.antt =====
-- How each request leaves the handler.
use chaotic.Base.{
  ◌≡◌, ◌∙◌, refl, sym, List, [], ◌∷◌, Option, none, some, is_some, Text, Map, lookup, insert,
  delete, arith, Bool-cases, inl, inr,
}
use mathlib.Core.Path.{subst}
use chaotic.Engine.Spec.{RuleSpec}
use chaotic.Engine.Spec.Build.{Built, built, invalid, build_rule}
use chaotic.Engine.Spec.Build.Total.{spec_errors, Builds, build_rule-Builds}
use chaotic.Engine.Lint.{Report, lint_off, lint_gate}
use chaotic.Terms.Parse.{Parsed, got, fail, parse}
use chaotic.Source.Http.{
  Imports, Handler, Route, post_whole, put_rule, delete_rule, status, bad_request, panicked,
  specs_of, rebuild_locked, post_indexed, post_body, put_checked, put_spec, put_parsed, put_body,
  delete_spec, index_specs, add_name, remove_name, with_name, not_found,
}
use chaotic.Source.Http.Table.{
  IsTable, put-IsTable, remove-IsTable, index_specs-IsTable, empty-IsTable, IsBuildable-insert,
  IsBuildable-delete,
}
use chaotic.Source.Http.Rebuild.{AlwaysWrites, rebuild_locked-Rebuilds}
use chaotic.Source.Http.Edits.{view, load, Effect, view-put, view-remove, view-load, lookup-view}
use chaotic.Source.Http.Answering.{
  IsSame, view_of, Answers, refusal, bad, with_table, same-IsValid, finish_put-Answers,
  finish_post-Answers, IsValid,
}

post_indexed-Answers :
    (lib : Imports) (route : Route) (order : List Text) (specs : Map RuleSpec) (h : Handler)
    → AlwaysWrites lib
    → IsValid lib h
    → IsTable lib.std order specs
    → ((m : Map RuleSpec) → m ≡ view order specs → Effect lib route (view_of h) m)
    → Answers lib route h (post_indexed lib (order, specs) h)
post_indexed-Answers lib route order specs h w v t to =
    elim (Bool-cases (lint_gate lib.std.parse_duration h.lint (specs_of order specs)).1) [
      | inl rejected ↦ unfold post_indexed in rw rejected (bad lib route h v)
      | inr passed ↦
          unfold post_indexed in
          rw passed (
            finish_post-Answers lib route
              (lint_gate lib.std.parse_duration h.lint (specs_of order specs)).0 h
              (with_table order specs h) (rebuild_locked lib (with_table order specs h)) v t
              (refl, refl) (rebuild_locked-Rebuilds lib (with_table order specs h) w) to)
    ]

pub post_body-Answers :
    (lib : Imports) (raw : Option Text) (body : Option Text) (h : Handler)
    → AlwaysWrites lib
    → IsValid lib h
    → ((b : Text) → body ≡ some b → raw ≡ some b)
    → Answers lib (post_whole raw) h (post_body lib body h)
post_body-Answers lib raw none h w v from = unfold post_body in bad lib (post_whole raw) h v
post_body-Answers lib raw (some body) h w v from = unfold post_body in go (lib.unmarshal body) refl
  where
    loaded :
        (doc : List RuleSpec) (m : Map RuleSpec)
        → m ≡ view (index_specs 0 doc [] []).0 (index_specs 0 doc [] []).1
        → m ≡ load 0 doc []
    loaded doc m e =
        e ∙ view-load lib.std 0 doc [] [] (empty-IsTable lib.std) ∙ (unfold view in refl)

    go :
        (out : Option (List RuleSpec))
        → lib.unmarshal body ≡ out
        → Answers lib (post_whole raw) h (elim out [
          | none ↦ (h, bad_request)
          | some doc ↦ post_indexed lib (index_specs 0 doc [] []) h
        ])
    go none read = bad lib (post_whole raw) h v
    go (some doc) read =
        post_indexed-Answers lib (post_whole raw) _ _ h w v
          (index_specs-IsTable lib.std 0 doc [] [] (empty-IsTable lib.std))
          λ m e.
            subst (λ r. Effect lib (post_whole r) (view_of h) m) (sym (from body refl))
              (doc, read, loaded doc m e)

put_checked-Answers :
    (lib : Imports) (route : Route) (spec : RuleSpec) (h g : Handler)
    → AlwaysWrites lib
    → IsValid lib h
    → IsSame h g
    → spec_errors lib.std spec ≡ []
    → ((m : Map RuleSpec) → m ≡ insert spec.name spec (view_of h) → Effect lib route (view_of h) m)
    → Answers lib route h (put_checked lib spec g)
put_checked-Answers lib route spec h g w v same clean to =
    let u = same-IsValid lib h g v same in
    let table = put-IsTable lib.std spec g.order g.specs u.table in
    let next = with_table (add_name spec.name g.order g.specs) (insert spec.name spec g.specs) g in
    elim (Bool-cases (lint_gate lib.std.parse_duration g.lint (spec ∷ [])).1) [
      | inl rejected ↦
          unfold put_checked in rw rejected (u, (λ e. cc), inl (unfold status in omega arith, same))
      | inr passed ↦
          unfold put_checked in
          rw passed (
            finish_put-Answers lib route (lint_gate lib.std.parse_duration g.lint (spec ∷ [])).0 h
              next (rebuild_locked lib next) table
              (IsBuildable-insert lib.std spec g.specs clean u.buildable)
              (rebuild_locked-Rebuilds lib next w)
              λ m e.
                to m (e ∙ view-put lib.std spec g.order g.specs u.table ∙ rw (same.1, same.2) refl))
    ]

put_spec-Answers :
    (lib : Imports) (route : Route) (spec : RuleSpec) (h : Handler)
    → AlwaysWrites lib
    → IsValid lib h
    → ((m : Map RuleSpec) → m ≡ insert spec.name spec (view_of h) → Effect lib route (view_of h) m)
    → Answers lib route h (put_spec lib spec h)
unfolding put_spec
put_spec-Answers lib route spec h w v to =
    go (build_rule lib.std spec h.store) (build_rule-Builds lib.std spec h.store)
  where
    go :
        (o : Option Built)
        → Builds spec.name (spec_errors lib.std spec) o
        → Answers lib route h (elim o [
          | none ↦ (h, panicked)
          | some (invalid errs) ↦ (h, bad_request)
          | some (built r s) ↦ put_checked lib spec (record h { store = s })
        ])
    go none b = absurd b
    go (some (invalid errs)) b = bad lib route h v
    go (some (built r s)) b =
        put_checked-Answers lib route spec h (record h { store = s }) w v (refl, refl, refl, refl)
          b.1 to

put_parsed-Answers :
    (lib : Imports) (name body : Text) (p : Parsed (List RuleSpec × Report)) (h : Handler)
    → AlwaysWrites lib
    → IsValid lib h
    → parse lib.std lib.lits lint_off body ≡ p
    → Answers lib (put_rule name (some body)) h (put_parsed lib name p h)
unfolding put_parsed with_name
put_parsed-Answers lib name body (fail e) h w v from = bad lib (put_rule name (some body)) h v
put_parsed-Answers lib name body (got ([], rep)) h w v from =
    bad lib (put_rule name (some body)) h v
put_parsed-Answers lib name body (got (spec ∷ [], rep)) h w v from =
    put_spec-Answers lib (put_rule name (some body)) (with_name name spec) h w v
      λ m e. (spec, rep, from, e)
put_parsed-Answers lib name body (got (spec ∷ (next ∷ rest), rep)) h w v from =
    bad lib (put_rule name (some body)) h v

pub put_body-Answers :
    (lib : Imports) (name : Text) (raw : Option Text) (body : Option Text) (h : Handler)
    → AlwaysWrites lib
    → IsValid lib h
    → ((b : Text) → body ≡ some b → raw ≡ some b)
    → Answers lib (put_rule name raw) h (put_body lib name body h)
put_body-Answers lib name raw none h w v from = unfold put_body in bad lib (put_rule name raw) h v
put_body-Answers lib name raw (some body) h w v from =
    subst (λ r. Answers lib (put_rule name r) h (put_body lib name (some body) h))
      (sym (from body refl))
      (unfold put_body in
        put_parsed-Answers lib name body (parse lib.std lib.lits lint_off body) h w v refl)

pub delete_spec-Answers :
    (lib : Imports) (name : Text) (h : Handler)
    → AlwaysWrites lib
    → IsValid lib h
    → Answers lib (delete_rule name) h (delete_spec lib name h)
delete_spec-Answers lib name h w v = elim (Bool-cases (is_some (lookup name h.specs))) [
  | inr absent ↦
      unfold delete_spec in
      rw absent
        (refusal lib (delete_rule name) h not_found v (λ e. cc) (unfold status in omega arith))
  | inl there ↦
      let next = with_table (remove_name name h.order) (delete name h.specs) h in
      unfold delete_spec in
      rw there (
        finish_put-Answers lib (delete_rule name) [] h next (rebuild_locked lib next)
          (remove-IsTable lib.std name h.order h.specs v.table)
          (IsBuildable-delete lib.std name h.specs v.buildable) (rebuild_locked-Rebuilds lib next w)
          λ m e. (
            e ∙ view-remove name h.order h.specs,
            lookup-view name h.order h.specs ∙ v.table.keyed name ∙ there,
          ))
]
