-- ===== src/ServerDriven/Window.antt =====
-- serverdriven/connection.go: the replay buffer is a window on the last frames.
use fuaran_go.Prelude.{
  ℕ, zero, suc, ◌+◌, ◌-◌, ◌≤◌, ◌<◌, ◌≡◌, refl, sym, ap, ◌∙◌, subst, List, [], ◌∷◌, ◌++◌, true, ◌&&◌,
  some, ltb, leb, length, length-append, drop, arith, Bool-cases, inl, inr, ltb→lt,
}
use fuaran_go.Wire.Core.{Core}
use fuaran_go.Wire.Value.{Obj}
use fuaran_go.ServerDriven.Driver.{Event, Stepped, accepted, rejected, aborted, step}
use fuaran_go.ServerDriven.Connection.{
  Frame, Connection, buffer_frame, without_oldest, push_ops, push_some, projected, with_session,
  Handling, handled, handle, resync_from, resync,
}

-- consecutive sequences up to `s`
abbrev pub Ends : ℕ → List Frame → Type 0
Ends s [] = Unit
Ends s (f ∷ fs) = (f.seq + length fs ≡ s) × Ends s fs

pub record IsWindow (c : Connection) : Type 0 where
  pub last : Ends c.seq c.buffer
  pub room : 0 < c.buffer_cap
  pub bounded : length c.buffer ≤ c.buffer_cap

Ends-append :
    (s : ℕ) (fs : List Frame) (f : Frame) → Ends s fs → f.seq ≡ suc s → Ends (suc s) (fs ++ f ∷ [])
Ends-append s [] f _ e = (omega arith, tt)
Ends-append s (g ∷ fs) f (here, rest) e =
    (omega (arith, length-append {0} fs (f ∷ [])), Ends-append s fs f rest e)

without_oldest-Ends : (s : ℕ) (fs : List Frame) → Ends s fs → Ends s (without_oldest fs)
without_oldest-Ends s [] h = tt
without_oldest-Ends s (f ∷ fs) (here, rest) = rest

length-without_oldest :
    (fs : List Frame) → 0 < length fs → suc (length (without_oldest fs)) ≡ length fs
length-without_oldest [] h = absurd (omega arith)
length-without_oldest (f ∷ fs) h = refl

-- the buffer keeps its bound and its order
buffer_frame-Ends :
    (cap s : ℕ) (f : Frame) (fs : List Frame)
    → Ends s fs
    → 0 < cap
    → length fs ≤ cap
    → f.seq ≡ suc s
    → Ends (suc s) (buffer_frame cap f fs) × (length (buffer_frame cap f fs) ≤ cap)
unfolding buffer_frame
buffer_frame-Ends cap s f fs h room bound e =
    elim (Bool-cases (leb cap (length fs) && ltb 0 (length fs))) [
      | inl full ↦
          let kept = length-without_oldest fs (ground arith) in
          rw (full, buffer_frame)
            ((
              Ends-append s (without_oldest fs) f (without_oldest-Ends s fs h) e,
              omega (arith, length-append {0} (without_oldest fs) (f ∷ [])),
            ))
      | inr roomy ↦
          let less : length fs < cap = ground arith in
          rw (roomy, buffer_frame)
            ((Ends-append s fs f h e, omega (arith, length-append {0} fs (f ∷ []))))
    ]

push_some-IsWindow : (os : List Obj) (c : Connection) → IsWindow c → IsWindow (push_some os c).0
unfolding push_ops
push_some-IsWindow [] c w = w
push_some-IsWindow (o ∷ os) c w =
    let f : Frame = (record { seq = suc c.seq; ops = o ∷ os }) in
    let (last, bounded) =
      buffer_frame-Ends c.buffer_cap c.seq f c.buffer w.last w.room w.bounded refl in
    record { last = last; room = w.room; bounded = bounded }

handled-IsWindow :
    (c : Connection) (st : Stepped) (h : Handling)
    → IsWindow c
    → handled c st ≡ some h
    → IsWindow h.0
handled-IsWindow c (accepted s os) h w e =
    let same : push_some os (with_session s c) ≡ h = cc in
    subst (λ x. IsWindow x.0) same
      (push_some-IsWindow os (with_session s c)
        (record { last = w.last; room = w.room; bounded = w.bounded }))
handled-IsWindow c (rejected r) h w e =
    let same : push_some (projected c.project_reject r) c ≡ h = cc in
    subst (λ x. IsWindow x.0) same (push_some-IsWindow (projected c.project_reject r) c w)
handled-IsWindow c aborted h w e = cc

-- An event keeps the replay buffer a window: the last frames, with consecutive sequences up to the
-- connection's, and no more than the capacity.
pub handle-IsWindow :
    (core : Core) (ev : Event) (c : Connection) (h : Handling)
    → IsWindow c
    → handle core ev c ≡ some h
    → IsWindow h.0
unfolding handle
handle-IsWindow core ev c h w e = handled-IsWindow c (step core c.session ev) h w e

drop-nil : (k : ℕ) → ◌≡◌ {A = List Frame} [] (drop k [])
drop-nil zero = refl
drop-nil (suc k) = refl

resync_from-drop :
    (s seen : ℕ) (fs : List Frame)
    → Ends s fs
    → resync_from (λ f. true) seen fs ≡ drop (length fs + seen - s) fs
resync_from-drop s seen [] h = drop-nil (0 + seen - s)
resync_from-drop s seen (f ∷ fs) (here, rest) = elim (Bool-cases (ltb seen f.seq)) [
  | inl newer ↦
      let lt = ltb→lt seen f.seq newer in
      let now : suc (length fs) + seen - s ≡ 0 = omega arith in
      let later : length fs + seen - s ≡ 0 = omega arith in
      rw (newer, resync_from)
        (ap (λ l. f ∷ l) (resync_from-drop s seen fs rest ∙ ap (λ k. drop k fs) later)
          ∙ sym (ap (λ k. drop k (f ∷ fs)) now))
  | inr older ↦
      let ge : f.seq ≤ seen = ground arith in
      let now : suc (length fs) + seen - s ≡ suc (length fs + seen - s) = omega arith in
      rw (older, resync_from)
        (resync_from-drop s seen fs rest ∙ sym (ap (λ k. drop k (f ∷ fs)) now))
]

-- A resync over a channel that takes every frame pushes the retained frames behind the last that the
-- client has seen: all but the first ones of the window, or the whole window for a client behind it.
pub resync-drop :
    (c : Connection) (seen : ℕ)
    → IsWindow c
    → resync (λ f. true) seen c ≡ drop (length c.buffer + seen - c.seq) c.buffer
unfolding resync
resync-drop c seen w = resync_from-drop c.seq seen c.buffer w.last
