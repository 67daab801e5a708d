-- ===== src/EventsDriver/Delete.antt =====
-- `RegEventDel` of events_driver.hpp.
use public_cpp.Base.{
  ℕ, ◌<◌, ◌≡◌, ◌≢◌, ◌⊎◌, inl, inr, refl, sym, ap, ◌∙◌, Bool, true, false, ◌&&◌, none, List, arith,
  ◌==◌, ==_iff, if◌then◌else◌, length, get_or, set, get_or-set, length-set, Bool-cases,
}
use public_cpp.Heap.{erase}
use public_cpp.Heap.Invariant.{IsHeap, Contains, ensure-ready}
use public_cpp.Heap.Erase.{Erased, erase-Erased}
use public_cpp.EventsDriver.{
  Calls, EventCtx, earliest, Driver, no_ctx, ctx, drop_timeo, drop_context, reg_event_del,
}

-- What `RegEventDel` leaves: the descriptor has no timeout, the heap is in order and has lost exactly
-- the descriptor's item, and the others are as they were.
pub record Cleared (sys : Calls) (d : Driver) (fd : ℕ) (r : Bool × Driver) : Type 0 where
  pub answer : r.0 ≡ (sys.lock && sys.ctl_del fd)
  pub valid : IsHeap r.1.heap_timeo
  pub gone : (ctx d fd).sign_timeo ≢ 0 → ¬ Contains r.1.heap_timeo (ctx d fd).sign_timeo
  pub kept :
      (x : ℕ) → Contains d.heap_timeo x → x ≢ (ctx d fd).sign_timeo → Contains r.1.heap_timeo x
  pub unsigned : (ctx r.1 fd).sign_timeo ≡ 0
  pub context : r.0 ≡ true → (ctx r.1 fd).context ≡ none
  pub others : (u : ℕ) → u ≢ fd → ctx r.1 u ≡ ctx d u
  pub wide : length r.1.ctxs ≡ length d.ctxs

pub ctx-set :
    (cs : List EventCtx) (fd : ℕ) (c : EventCtx)
    → fd < length cs
    → get_or (set cs fd c) fd no_ctx ≡ c
ctx-set cs fd c h =
    let here : (fd == fd) ≡ true = ground arith in
    get_or-set cs fd fd c no_ctx h ∙ ap (λ b. if b then c else get_or cs fd no_ctx) here

pub ctx-other :
    (cs : List EventCtx) (fd u : ℕ) (c : EventCtx)
    → fd < length cs
    → u ≢ fd
    → get_or (set cs fd c) u no_ctx ≡ get_or cs u no_ctx
ctx-other cs fd u c h other =
    let there : (fd == u) ≡ false = ground arith in
    get_or-set cs fd u c no_ctx h ∙ ap (λ b. if b then c else get_or cs u no_ctx) there

-- The timeout of the descriptor is in the heap, if it has one.
abbrev pub HasTimeo : Driver → ℕ → Type 0
HasTimeo d fd = ((ctx d fd).sign_timeo ≡ 0) ⊎ Contains d.heap_timeo (ctx d fd).sign_timeo

record Dropped (d : Driver) (fd : ℕ) (q : Driver) : Type 0 where
  valid : IsHeap q.heap_timeo
  gone : (ctx d fd).sign_timeo ≢ 0 → ¬ Contains q.heap_timeo (ctx d fd).sign_timeo
  kept : (x : ℕ) → Contains d.heap_timeo x → x ≢ (ctx d fd).sign_timeo → Contains q.heap_timeo x
  unsigned : (ctx q fd).sign_timeo ≡ 0
  others : (u : ℕ) → u ≢ fd → ctx q u ≡ ctx d u
  wide : length q.ctxs ≡ length d.ctxs

drop_timeo-Dropped :
    (d : Driver) (fd : ℕ)
    → IsHeap d.heap_timeo
    → fd < length d.ctxs
    → HasTimeo d fd
    → Dropped d fd (drop_timeo d fd)
unfolding drop_timeo
drop_timeo-Dropped d fd w h has = elim (Bool-cases ((ctx d fd).sign_timeo == 0)) [
  | inl e ↦
      let zero_sign = (==_iff (ctx d fd).sign_timeo 0).0 e in
      rw e (record {
        valid = w;
        gone = λ other. absurd (other zero_sign);
        kept = λ x c other. c;
        unsigned = zero_sign;
        others = λ u other. refl;
        wide = refl;
      })
  | inr e ↦ rw e (erased (in_heap has e))
]
  where
    in_heap :
        HasTimeo d fd
        → ((ctx d fd).sign_timeo == 0) ≡ false
        → Contains d.heap_timeo (ctx d fd).sign_timeo
    in_heap (inl z) e = absurd (ground arith)
    in_heap (inr c) e = c

    erased :
        Contains d.heap_timeo (ctx d fd).sign_timeo
        → Dropped d fd (record d {
          heap_timeo = erase d.heap_timeo (ctx d fd).sign_timeo;
          ctxs = set d.ctxs fd (record (ctx d fd) { sign_timeo = 0 });
        })
    erased c =
        let sign = (ctx d fd).sign_timeo in
        let r = ensure-ready d.heap_timeo w in
        let s : Erased d.heap_timeo sign (erase d.heap_timeo sign) =
          rw r at (erase-Erased d.heap_timeo sign (rw r w) (rw r c)) in
        record {
          valid = s.valid;
          gone = λ other. s.gone;
          kept = s.kept;
          unsigned =
              ap (λ c. c.sign_timeo) (ctx-set d.ctxs fd (record (ctx d fd) { sign_timeo = 0 }) h);
          others = λ u other. ctx-other d.ctxs fd u (record (ctx d fd) { sign_timeo = 0 }) h other;
          wide = length-set d.ctxs fd (record (ctx d fd) { sign_timeo = 0 });
        }

pub reg_event_del-done :
    (sys : Calls) (d : Driver) (fd : ℕ)
    → sys.lock ≡ true
    → sys.ctl_del fd ≡ true
    → reg_event_del sys d fd ≡ (true, drop_context (drop_timeo d fd) fd)
unfolding reg_event_del
reg_event_del-done sys d fd l e = rw (l, e, reg_event_del) refl

pub reg_event_del-fails :
    (sys : Calls) (d : Driver) (fd : ℕ)
    → (sys.lock && sys.ctl_del fd) ≡ false
    → reg_event_del sys d fd ≡ (false, drop_timeo d fd)
unfolding reg_event_del
reg_event_del-fails sys d fd e = elim (Bool-cases sys.lock) [
  | inr l ↦ rw (l, reg_event_del) refl
  | inl l ↦ let no_ctl : sys.ctl_del fd ≡ false = ground arith in rw (l, no_ctl, reg_event_del) refl
]

-- `RegEventDel` of a descriptor in range whose timeout, if it has one, is in a heap in order: the
-- descriptor then has no timeout, the heap has lost its item and no other and is in order, and other
-- descriptors, and their number, are as they were. The result is whether the lock and `epoll_ctl` succeed, and then the
-- context is null too.
pub reg_event_del-Cleared :
    (sys : Calls) (d : Driver) (fd : ℕ)
    → IsHeap d.heap_timeo
    → fd < length d.ctxs
    → HasTimeo d fd
    → Cleared sys d fd (reg_event_del sys d fd)
reg_event_del-Cleared sys d fd w h has =
    let s = drop_timeo-Dropped d fd w h has in
    let q = drop_timeo d fd in
    elim (Bool-cases (sys.lock && sys.ctl_del fd)) [
      | inr e ↦ rw (reg_event_del-fails sys d fd e) (record {
        answer = sym e;
        valid = s.valid;
        gone = s.gone;
        kept = s.kept;
        unsigned = s.unsigned;
        context = λ f. absurd (ground arith);
        others = s.others;
        wide = s.wide;
      })
      | inl e ↦
          let wide : fd < length q.ctxs = omega (arith, s.wide) in
          let last : EventCtx = record (ctx q fd) { context = none } in
          rw (reg_event_del-done sys d fd (ground arith) (ground arith)) (record {
            answer = sym e;
            valid = s.valid;
            gone = s.gone;
            kept = s.kept;
            unsigned = ap (λ c. c.sign_timeo) (ctx-set q.ctxs fd last wide) ∙ s.unsigned;
            context = λ f. ap (λ c. c.context) (ctx-set q.ctxs fd last wide);
            others = λ u other. ctx-other q.ctxs fd u last wide other ∙ s.others u other;
            wide = length-set q.ctxs fd last ∙ s.wide;
          })
    ]
