-- ===== src/Source/Http/Answering.antt =====
-- The invariant of the handler, and what an answer is.
use chaotic.Base.{
  ◌≤◌, ◌<◌, ◌≡◌, ◌≢◌, ◌∙◌, ◌⊎◌, refl, ap, List, [], ◌∷◌, none, Text, Map, arith, inl, inr,
}
use chaotic.Engine.Spec.{RuleSpec}
use chaotic.Engine.Lint.{Report}
use chaotic.Source.Http.{
  Imports, Handler, Response, Route, Ending, done, failed, paniced, status, bad_request, panicked,
  write_lint_findings, finish_post, finish_put,
}
use chaotic.Source.Http.Table.{IsTable, IsBuildable, order_builds, IsBuildable-All}
use chaotic.Source.Http.Rebuild.{IsLive, Rebuilds}
use chaotic.Source.Http.Edits.{view, Effect}

-- The order and the specs are one table, whose specs build; and the engine and the served document
-- are theirs, unless no request has set any.
pub record IsValid (lib : Imports) (h : Handler) : Type 0 where
  pub table : IsTable lib.std h.order h.specs
  pub buildable : IsBuildable lib.std h.specs
  pub shown : (h.current ≡ none) × (h.order ≡ []) ⊎ IsLive lib h

-- Nothing that a client or a call sees has changed.
abbrev pub IsSame : Handler → Handler → Type 0
IsSame h h' =
    (h'.eng ≡ h.eng) × (h'.order ≡ h.order) × (h'.specs ≡ h.specs) × (h'.current ≡ h.current)

abbrev pub view_of : Handler → Map RuleSpec
view_of h = view h.order h.specs

-- A request's answer: an error, and nothing has changed; or a success with its effect on the map.
abbrev pub Answers : Imports → Route → Handler → Handler × Response → Type 0
Answers lib route h (h', r) =
    IsValid lib h'
    × (r ≢ panicked)
    × ((400 ≤ status r) × IsSame h h'
        ⊎ (status r < 400) × Effect lib route (view_of h) (view_of h'))

-- An error that leaves the handler as it is.
pub refusal :
    (lib : Imports) (route : Route) (h : Handler) (r : Response)
    → IsValid lib h
    → r ≢ panicked
    → 400 ≤ status r
    → Answers lib route h (h, r)
refusal lib route h r v p e = (v, p, inl (e, (refl, refl, refl, refl)))

pub bad :
    (lib : Imports) (route : Route) (h : Handler)
    → IsValid lib h
    → Answers lib route h (h, bad_request)
bad lib route h v = refusal lib route h bad_request v (λ e. cc) (unfold status in omega arith)

write_lint_findings-status :
    (rep : Report) → (write_lint_findings rep ≢ panicked) × (status (write_lint_findings rep) < 400)
unfolding write_lint_findings status
write_lint_findings-status [] = ((λ e. cc), omega arith)
write_lint_findings-status (f ∷ rep) = ((λ e. cc), omega arith)

-- The handler with another table.
abbrev pub with_table : List Text → Map RuleSpec → Handler → Handler
with_table order specs h = record h { order = order; specs = specs }

-- A rebuild that succeeds makes the new table live.
rebuilt-IsValid :
    (lib : Imports) (h h' : Handler)
    → IsTable lib.std h.order h.specs
    → Rebuilds lib h (h', done)
    → IsValid lib h' × (view_of h' ≡ view_of h)
rebuilt-IsValid lib h h' t (live, order, specs, all) = (
  record {
    table = rw (order, specs) t;
    buildable = rw specs (IsBuildable-All lib.std h.order h.specs t all);
    shown = inr live;
  },
  rw (order, specs) refl,
)

pub same-IsValid : (lib : Imports) (h h' : Handler) → IsValid lib h → IsSame h h' → IsValid lib h'
same-IsValid lib h h' v (e, o, s, c) = record {
  table = rw (o, s) v.table;
  buildable = rw s v.buildable;
  shown = elim v.shown [
    | inl (blank, empty) ↦ inl (c ∙ blank, o ∙ empty)
    | inr live ↦ inr (record {
      served = rw (c, o, s) live.served;
      installed = rw (e, o, s) live.installed;
      made = rw (e, o, s) live.made;
      counted = rw e live.counted;
    })
  ];
}

pub finish_put-Answers :
    (lib : Imports) (route : Route) (rep : Report) (h n : Handler) (out : Handler × Ending)
    → IsTable lib.std n.order n.specs
    → IsBuildable lib.std n.specs
    → Rebuilds lib n out
    → ((m : Map RuleSpec) → m ≡ view_of n → Effect lib route (view_of h) m)
    → Answers lib route h (finish_put rep out)
unfolding finish_put
finish_put-Answers lib route rep h n (h', done) t b r to =
    let (v, same) = rebuilt-IsValid lib n h' t r in
    let (p, s) = write_lint_findings-status rep in (v, p, inr (s, to (view_of h') same))
finish_put-Answers lib route rep h n (h', failed) t b r to =
    absurd (r.1 (order_builds lib.std n.order n.specs t b))
finish_put-Answers lib route rep h n (h', paniced) t b r to = absurd r

pub finish_post-Answers :
    (lib : Imports) (route : Route) (rep : Report) (h n : Handler) (out : Handler × Ending)
    → IsValid lib h
    → IsTable lib.std n.order n.specs
    → (n.eng ≡ h.eng) × (n.current ≡ h.current)
    → Rebuilds lib n out
    → ((m : Map RuleSpec) → m ≡ view_of n → Effect lib route (view_of h) m)
    → Answers lib route h (finish_post rep h out)
unfolding finish_post
finish_post-Answers lib route rep h n (h', done) v t same r to =
    let (v', viewed) = rebuilt-IsValid lib n h' t r in
    let (p, s) = write_lint_findings-status rep in (v', p, inr (s, to (view_of h') viewed))
finish_post-Answers lib route rep h n (h', failed) v t same r to =
    let kept : IsSame h (record h' { order = h.order; specs = h.specs }) = (
      ap (λ (k : Handler). k.eng) r.0 ∙ same.0,
      refl,
      refl,
      ap (λ (k : Handler). k.current) r.0 ∙ same.1,
    ) in
    (same-IsValid lib h _ v kept, (λ e. cc), inl (unfold status in omega arith, kept))
finish_post-Answers lib route rep h n (h', paniced) v t same r to = absurd r
