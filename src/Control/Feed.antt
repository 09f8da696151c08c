-- ===== src/Control/Feed.antt =====
-- What a console gets of the messages that ws_handler.go relays to it.
use mathlib.Core.List.{Sublist, sublist-append_left, append_assoc, append-nil}
use mathlib.Core.List.Sublist
use sense_grid.Common.{
  ◌≤◌, ◌+◌, ◌≡◌, refl, sym, ap, subst, ◌∙◌, inl, inr, Bool, true, false, ◌||◌, not, Option, none,
  some, List, [], ◌∷◌, ◌++◌, arith, ltb, if◌then◌else◌, Text, length, length-append, All,
  Bool-cases, Option-cases,
}
use sense_grid.Control.Relay.{
  WsFrame, Conn, new_conn, relay, write_frame, ws_send_buffer, Event, message, reader_stops, writes,
  pings, sees_closed, step, run,
}

-- The frame that an event offers to the channel.
unfoldable pub offered : (WsFrame → Option Text) → Event → List Text
offered marshal (message f) = elim (marshal f) [ none ↦ [] | some frame ↦ frame ∷ [] ]
offered marshal _ = []

unfoldable pub frames : (WsFrame → Option Text) → List Event → List Text
frames marshal [] = []
frames marshal (event ∷ events) = offered marshal event ++ frames marshal events

-- The socket takes what the writer gives it.
abbrev pub IsTaken : Event → Type 0
IsTaken (writes ok) = ok ≡ true
IsTaken _ = Unit {0}

-- The frames that came through, in their order.
abbrev through : Conn → List Text
through c = c.written ++ c.queue

-- What an event makes of a connection: the frames that came through stay, but for one that the socket
-- refuses, and the offered frame is added where the channel has room.
pub record Feeds (new : List Text) (taken : Type 0) (c c' : Conn) : Type 0 where
  pub kept : Sublist (through c') (through c ++ new)
  pub bounded : length c.queue ≤ ws_send_buffer → length c'.queue ≤ ws_send_buffer
  pub whole :
      taken → length (through c) + length new ≤ ws_send_buffer → through c' ≡ through c ++ new

same_frames :
    (c c' : Conn) (taken : Type 0)
    → c'.written ≡ c.written
    → c'.queue ≡ c.queue
    → Feeds [] taken c c'
same_frames c c' taken w q =
    let same : through c' ≡ through c ++ [] =
      ap (λ (x : List Text). x ++ c'.queue) w
      ∙ ap (λ (x : List Text). c.written ++ x) q
      ∙ sym (append-nil (through c)) in
    record {
      kept =
          subst (λ (x : List Text). Sublist x (through c ++ [])) (sym same)
            (Sublist.refl (through c ++ []));
      bounded = λ h. rw q h;
      whole = λ t h. same;
    }

either-Feeds :
    {new : List Text} {taken : Type 0} (c : Conn) (b : Bool) (x y : Conn)
    → (b ≡ true → Feeds new taken c x)
    → (b ≡ false → Feeds new taken c y)
    → Feeds new taken c (if b then x else y)
either-Feeds c true x y hx hy = hx refl
either-Feeds c false x y hx hy = hy refl

relay-Feeds :
    (marshal : WsFrame → Option Text) (f : WsFrame) (c : Conn)
    → Feeds (offered marshal (message f)) (Unit {0}) c (relay marshal f c)
unfolding relay offered
relay-Feeds marshal f c = elim (Option-cases (marshal f)) [
  | inl none_made ↦ rw (none_made, relay, offered) (same_frames c c (Unit {0}) refl refl)
  | inr (frame, made) ↦
      rw (made, relay, offered)
        (elim (Bool-cases (ltb (length c.queue) ws_send_buffer)) [
          | inl room ↦
              let same = append_assoc c.written c.queue (frame ∷ []) in
              rw room (record {
                kept =
                    subst (λ (x : List Text). Sublist x (through c ++ frame ∷ [])) same
                      (Sublist.refl (through c ++ frame ∷ []));
                bounded = λ h. ground (arith, length-append c.queue (frame ∷ []));
                whole = λ t h. sym same;
              })
          | inr full ↦ rw full (record {
            kept = sublist-append_left (through c) (frame ∷ []);
            bounded = λ h. h;
            whole = λ t h. absurd (ground (arith, length-append c.written c.queue));
          })
        ])
]

write_frame-Feeds :
    (ok : Bool) (w q : List Text) (closed ended : Bool)
    → let c : Conn = record { written = w; queue = q; closed = closed; ended = ended } in
      Feeds [] (ok ≡ true) c (write_frame ok c)
unfolding write_frame
write_frame-Feeds ok w [] closed ended =
    let c : Conn = record { written = w; queue = []; closed = closed; ended = ended } in
    same_frames c c (ok ≡ true) refl refl
write_frame-Feeds ok w (frame ∷ rest) closed ended =
    let c : Conn = record { written = w; queue = frame ∷ rest; closed = closed; ended = ended } in
    let all = sym (append-nil (through c)) in
    either-Feeds c ok _ _
      (λ fine.
        let same = append_assoc w (frame ∷ []) rest ∙ all in
        record {
          kept =
              subst (λ (x : List Text). Sublist x (through c ++ [])) (sym same)
                (Sublist.refl (through c ++ []));
          bounded = λ h. ground arith;
          whole = λ t h. same;
        })
      (λ lost. record {
        kept =
            subst (λ (x : List Text). Sublist (w ++ rest) x) all
              (Sublist.append (Sublist.refl w) (Sublist.cons frame (Sublist.refl rest)));
        bounded = λ h. ground arith;
        whole = λ t h. absurd (cc (t, lost));
      })

step-Feeds :
    (marshal : WsFrame → Option Text) (event : Event) (c : Conn)
    → Feeds (offered marshal event) (IsTaken event) c (step marshal event c)
unfolding step offered
step-Feeds marshal (message f) c = relay-Feeds marshal f c
step-Feeds marshal reader_stops c = same_frames c _ (Unit {0}) refl refl
step-Feeds marshal (writes ok) c =
    either-Feeds c c.ended _ _ (λ over. same_frames c c (ok ≡ true) refl refl)
      (λ going. write_frame-Feeds ok c.written c.queue c.closed c.ended)
step-Feeds marshal (pings ok) c =
    either-Feeds c (c.ended || ok) _ _ (λ alive. same_frames c c (Unit {0}) refl refl)
      (λ lost. same_frames c (record c { ended = true }) (Unit {0}) refl refl)
step-Feeds marshal sees_closed c =
    either-Feeds c (c.ended || not c.closed) _ _ (λ idle. same_frames c c (Unit {0}) refl refl)
      (λ over. same_frames c (record c { ended = true }) (Unit {0}) refl refl)

run-through :
    (marshal : WsFrame → Option Text) (events : List Event) (c : Conn)
    → length c.queue ≤ ws_send_buffer
    → Sublist (through (run marshal events c)) (through c ++ frames marshal events)
      × (length (run marshal events c).queue ≤ ws_send_buffer)
unfolding run frames
run-through marshal [] c h = (
  subst (λ (x : List Text). Sublist (through c) x) (sym (append-nil (through c)))
      (Sublist.refl (through c)),
  h,
)
run-through marshal (event ∷ events) c h =
    let f = step-Feeds marshal event c in
    let (kept, bounded) = run-through marshal events (step marshal event c) (f.bounded h) in
    let rest = frames marshal events in
    (
      Sublist.trans kept (
          subst (λ (x : List Text). Sublist (through (step marshal event c) ++ rest) x)
            (append_assoc (through c) (offered marshal event) rest)
            (Sublist.append f.kept (Sublist.refl rest))),
      bounded,
    )

-- Whatever messages come in and whatever the writer meets: what was written to the console, followed
-- by what waits in the channel, is a part of the relayed frames in their order, none of them twice;
-- and at most 64 frames wait.
pub run-Sublist :
    (marshal : WsFrame → Option Text) (events : List Event)
    → let c = run marshal events new_conn in
      Sublist (c.written ++ c.queue) (frames marshal events) × (length c.queue ≤ ws_send_buffer)
unfolding new_conn
run-Sublist marshal events = run-through marshal events new_conn (omega arith)

run-whole :
    (marshal : WsFrame → Option Text) (events : List Event) (c : Conn)
    → All IsTaken events
    → length (through c) + length (frames marshal events) ≤ ws_send_buffer
    → through (run marshal events c) ≡ through c ++ frames marshal events
unfolding run frames
run-whole marshal [] c t h = sym (append-nil (through c))
run-whole marshal (event ∷ events) c (t, ts) h =
    let c1 = step marshal event c in
    let new = offered marshal event in
    let rest = frames marshal events in
    let total = length-append new rest in
    let same = (step-Feeds marshal event c).whole t (omega (arith, h, total)) in
    let size = ap (λ (x : List Text). length x) same ∙ length-append (through c) new in
    run-whole marshal events c1 ts (omega (arith, h, total, size))
    ∙ ap (λ (x : List Text). x ++ rest) same
    ∙ append_assoc (through c) new rest

-- While the socket takes every frame and no more than 64 have been relayed, none is lost, whatever
-- the writer has already written.
pub run-lossless :
    (marshal : WsFrame → Option Text) (events : List Event)
    → All IsTaken events
    → length (frames marshal events) ≤ ws_send_buffer
    → let c = run marshal events new_conn in c.written ++ c.queue ≡ frames marshal events
unfolding new_conn
run-lossless marshal events t h = run-whole marshal events new_conn t (omega (arith, h))
