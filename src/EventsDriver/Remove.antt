-- ===== src/EventsDriver/Remove.antt =====
-- The branch `kDelEvent` of `RegEvent` of events_driver.hpp.
use public_cpp.Base.{
  ℕ, ◌+◌, ◌-◌, ◌<◌, ◌≡◌, ◌≢◌, refl, sym, ap, ◌∙◌, subst, inl, inr, Bool, true, false, not, ◌&&◌,
  Option, none, List, [], ◌∷◌, ◌++◌, arith, leb, ==_iff, if_true, if_false, length, length-append,
  length-set, length-replicate, get_or, replicate, get_or-replicate, zero, suc, Bool-cases,
}
use public_cpp.Heap.Invariant.{IsHeap, Contains}
use public_cpp.EventsDriver.{
  Calls, del_event, EventCtx, earliest, Driver, no_ctx, ctx, grow, drop_timeo, drop_context,
  reg_event_del, reg_del, reg_event,
}
use public_cpp.EventsDriver.Delete.{
  HasTimeo, Cleared, ctx-set, ctx-other, reg_event_del-done, reg_event_del-Cleared,
}

-- What `RegEvent` with `kDelEvent` leaves: the descriptor has neither a timeout nor a context, the
-- heap is in order and has lost exactly the descriptor's item, and the others are as they were.
pub record Removed (sys : Calls) (d : Driver) (fd : ℕ) (r : Bool × Driver) : Type 0 where
  pub answer : r.0 ≡ not (sys.lock && sys.ctl_del fd)
  pub valid : IsHeap r.1.heap_timeo
  pub gone : (ctx d fd).sign_timeo ≢ 0 → ¬ Contains r.1.heap_timeo (ctx d fd).sign_timeo
  pub kept :
      (x : ℕ) → Contains d.heap_timeo x → x ≢ (ctx d fd).sign_timeo → Contains r.1.heap_timeo x
  pub inside : fd < length r.1.ctxs
  pub last : ctx r.1 fd ≡ no_ctx
  pub others : (u : ℕ) → u ≢ fd → ctx r.1 u ≡ ctx d u

-- New places hold what a place out of range gives.
get_or-padded :
    (cs : List EventCtx) (n u : ℕ) → get_or (cs ++ replicate n no_ctx) u no_ctx ≡ get_or cs u no_ctx
unfolding get_or
get_or-padded [] n u = get_or-replicate n u no_ctx
get_or-padded (c ∷ cs) n zero = refl
get_or-padded (c ∷ cs) n (suc u) = get_or-padded cs n u

record Grown (d : Driver) (fd : ℕ) (g : Driver) : Type 0 where
  heap : g.heap_timeo ≡ d.heap_timeo
  inside : fd < length g.ctxs
  same : (u : ℕ) → ctx g u ≡ ctx d u

grow-Grown : (d : Driver) (fd : ℕ) → Grown d fd (grow d fd)
unfolding grow
grow-Grown d fd = elim (Bool-cases (leb (length d.ctxs) fd)) [
  | inl e ↦
      let n = fd + 1 - length d.ctxs in
      let pad = replicate n no_ctx in
      rw e (record {
        heap = refl;
        inside = ground (arith, length-append d.ctxs pad, length-replicate {A = EventCtx} n no_ctx);
        same = get_or-padded d.ctxs n;
      })
  | inr e ↦ rw e (record { heap = refl; inside = ground (arith, e); same = λ u. refl })
]

drop_timeo-none : (d : Driver) (fd : ℕ) → (ctx d fd).sign_timeo ≡ 0 → drop_timeo d fd ≡ d
unfolding drop_timeo
drop_timeo-none d fd e = if_true _ _ _ ((==_iff (ctx d fd).sign_timeo 0).1 e)

-- After `RegEventDel` succeeded, the branch goes on to the label for failures, and after it failed,
-- past it: the context is null either way.
reg_del-runs :
    (sys : Calls) (d : Driver) (fd : ℕ)
    → Cleared sys d fd (reg_event_del sys d fd)
    → reg_del sys d fd
      ≡ (not (sys.lock && sys.ctl_del fd), drop_context (reg_event_del sys d fd).1 fd)
unfolding reg_del
reg_del-runs sys d fd c = elim (Bool-cases (sys.lock && sys.ctl_del fd)) [
  | inl e ↦
      let again =
        reg_event_del-done sys q fd (ground arith) (ground arith)
        ∙ ap (λ t. (true, drop_context t fd)) (drop_timeo-none q fd c.unsigned) in
      if_true _ _ _ (c.answer ∙ e)
      ∙ ap (λ (r : Bool × Driver). (false, r.1)) again
      ∙ ap (λ b. (not b, drop_context q fd)) (sym e)
  | inr e ↦ if_false _ _ _ (c.answer ∙ e) ∙ ap (λ b. (not b, drop_context q fd)) (sym e)
]
  where
    q : Driver
    q = (reg_event_del sys d fd).1

reg_del-Removed :
    (sys : Calls) (d g : Driver) (fd : ℕ)
    → Grown d fd g
    → Cleared sys g fd (reg_event_del sys g fd)
    → Removed sys d fd
        (not (sys.lock && sys.ctl_del fd), drop_context (reg_event_del sys g fd).1 fd)
reg_del-Removed sys d g fd grown c =
    let q = (reg_event_del sys g fd).1 in
    let wide : fd < length q.ctxs = omega (arith, c.wide, grown.inside) in
    let cleared : EventCtx = record (ctx q fd) { context = none } in
    let sign : (ctx g fd).sign_timeo ≡ (ctx d fd).sign_timeo =
      ap (λ e. e.sign_timeo) (grown.same fd) in
    record {
      answer = refl;
      valid = c.valid;
      gone = subst (λ n. n ≢ 0 → ¬ Contains q.heap_timeo n) sign c.gone;
      kept = λ x has other. c.kept x (rw grown.heap has) (rw sign other);
      inside = omega (arith, wide, length-set q.ctxs fd cleared);
      last =
          ctx-set q.ctxs fd cleared wide
          ∙ ap (λ n. record { context = none; sign_timeo = n }) c.unsigned;
      others =
          λ u other. ctx-other q.ctxs fd u cleared wide other ∙ c.others u other ∙ grown.same u;
    }

-- `RegEvent` with `kDelEvent` of any descriptor, whose timeout, if it has one, is in a heap in order:
-- the descriptor then is in range, with neither a timeout nor a context, the heap has lost its item
-- and no other and is in order, and other descriptors are as they were. The result is false if the
-- lock and `epoll_ctl` succeed, and true if one of them fails.
pub reg_event-Removed :
    (sys : Calls) (d : Driver) (now fd context : ℕ) (timeo : Option ℕ)
    → IsHeap d.heap_timeo
    → HasTimeo d fd
    → Removed sys d fd (reg_event sys d now fd del_event context timeo)
unfolding reg_event
reg_event-Removed sys d now fd context timeo w has =
    subst (Removed sys d fd) (sym (reg_del-runs sys g fd cleared))
      (reg_del-Removed sys d g fd grown cleared)
  where
    g : Driver
    g = grow d fd

    grown : Grown d fd g
    grown = grow-Grown d fd

    in_heap : HasTimeo d fd → HasTimeo g fd
    in_heap (inl e) = inl (ap (λ c. c.sign_timeo) (grown.same fd) ∙ e)
    in_heap (inr c) = inr (rw (grown.heap, grown.same fd) c)

    cleared : Cleared sys g fd (reg_event_del sys g fd)
    cleared = reg_event_del-Cleared sys g fd (rw grown.heap w) grown.inside (in_heap has)
