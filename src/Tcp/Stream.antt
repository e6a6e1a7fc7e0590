-- ===== src/Tcp/Stream.antt =====
-- servers/tcp.js: the chunks of a connection, and the packets that are cut from them.
use mathlib.Core.List.{flatten}
use statsd.Base.{
  ℕ, zero, suc, ◌≡◌, refl, ap, sym, ◌∙◌, Bool, true, false, ◌||◌, List, [], ◌∷◌, ◌++◌, none, some,
  ◌==◌, if◌then◌else◌, take, drop, arith, Bool-cases, Option-cases, inl, inr, append_assoc,
  append-nil, is_some, All,
}
use statsd.Js.Text.{Text, contains}
use statsd.Tcp.{newline, last_index_of, on_data, emit, receive}

-- What stands behind the last newline, and what stands up to it.
abbrev pub pending : Text → Text
pending [] = []
pending (c ∷ s) =
    let rest = pending s in if contains newline s then rest else if c == newline then s else c ∷ s

abbrev pub complete : Text → Text
complete [] = []
complete (c ∷ s) =
    let rest = complete s in if contains newline s || c == newline then c ∷ rest else []

last_index_lem : (s : Text) → is_some (last_index_of newline s) ≡ contains newline s
unfolding last_index_of contains
last_index_lem [] = refl
last_index_lem (c ∷ s) = ground (arith, last_index_lem s)

complete_none : (s : Text) → contains newline s ≡ false → (complete s ≡ []) × (pending s ≡ s)
unfolding contains
complete_none [] h = (refl, refl)
complete_none (c ∷ s) h = ground (arith, complete_none s)

offset_lem :
    (s : Text) (i : ℕ)
    → last_index_of newline s ≡ some i
    → (take (suc i) s ≡ complete s) × (drop (suc i) s ≡ pending s)
unfolding last_index_of
offset_lem [] i h = cc
offset_lem (c ∷ s) zero h = ground (arith, last_index_lem s, complete_none s)
offset_lem (c ∷ s) (suc i) h = ground (arith, last_index_lem s, offset_lem s i)

pending-Lacks : (s : Text) → contains newline (pending s) ≡ false
unfolding contains
pending-Lacks [] = refl
pending-Lacks (c ∷ s) = ground (arith, pending-Lacks s)

contains-append :
    (s t : Text) → contains newline (s ++ t) ≡ (contains newline s || contains newline t)
unfolding contains
contains-append [] t = refl
contains-append (c ∷ s) t = ground (arith, contains-append s t)

pending-append : (s t : Text) → pending (s ++ t) ≡ pending (pending s ++ t)
pending-append [] t = refl
pending-append (c ∷ s) t =
    ground (arith, pending-append s t, contains-append s t, complete_none (s ++ t))

complete-append : (s t : Text) → complete (s ++ t) ≡ complete s ++ complete (pending s ++ t)
complete-append [] t = refl
complete-append (c ∷ s) t =
    ground
      (arith, complete-append s t, contains-append s t, complete_none (s ++ t), complete_none s)

on_data_lem :
    (chunk buffer : Text)
    → on_data chunk buffer ≡ (
      pending (buffer ++ chunk),
      if contains newline (buffer ++ chunk) then some (complete (buffer ++ chunk)) else none,
    )
unfolding on_data
on_data_lem chunk buffer =
    let all = buffer ++ chunk in
    elim (Option-cases (last_index_of newline all)) [
      | inl e ↦ rw (e, on_data) (ground (arith, last_index_lem all, complete_none all))
      | inr (i, e) ↦ rw (e, on_data) (ground (arith, last_index_lem all, offset_lem all i))
    ]

-- The last character is a newline.
abbrev pub ends_line : Text → Bool
ends_line [] = false
ends_line (c ∷ []) = c == newline
ends_line (c ∷ d ∷ s) = ends_line (d ∷ s)

ends_line-cons : (c : ℕ) (s : Text) → ends_line s ≡ true → ends_line (c ∷ s) ≡ true
ends_line-cons c [] h = cc
ends_line-cons c (d ∷ s) h = h

complete-ends : (s : Text) → contains newline s ≡ true → ends_line (complete s) ≡ true
unfolding contains
complete-ends [] h = cc
complete-ends (c ∷ s) h =
    ground (arith, complete-ends s, ends_line-cons c (complete s), complete_none s)

complete-append-pending : (s : Text) → complete s ++ pending s ≡ s
unfolding contains
complete-append-pending [] = refl
complete-append-pending (c ∷ s) = ground (arith, complete-append-pending s, complete_none s)

abbrev EndLines : List Text → Type 0
EndLines = All λ p. ends_line p ≡ true

-- one chunk, by whether the buffer then holds a newline
emit_lem :
    (b : Text) (packets : List Text)
    → EndLines packets
    → let out = emit (if contains newline b then some (complete b) else none) packets in
      (flatten out ≡ complete b ++ flatten packets) × EndLines out
unfolding flatten
emit_lem b packets h = elim (Bool-cases (contains newline b)) [
  | inl e ↦ rw e (refl, (complete-ends b e, h))
  | inr e ↦ rw (e) (rw (complete_none b e).0 refl, h)
]

receive_lem :
    (chunks : List Text) (buffer : Text)
    → contains newline buffer ≡ false
    → (flatten (receive chunks buffer).0 ≡ complete (buffer ++ flatten chunks))
      × ((receive chunks buffer).1 ≡ pending (buffer ++ flatten chunks))
      × EndLines (receive chunks buffer).0
unfolding receive flatten
receive_lem [] buffer h =
    let (none_complete, all_pending) = complete_none buffer h in
    (rw (append-nil, none_complete), rw (append-nil, all_pending), tt)
receive_lem (chunk ∷ chunks) buffer h =
    let b = buffer ++ chunk in
    let (ih0, ih1, ih2) = receive_lem chunks (pending b) (pending-Lacks b) in
    let (e0, e1) = emit_lem b (receive chunks (pending b)).0 ih2 in
    rw (on_data_lem, ← append_assoc buffer chunk (flatten chunks))
      (
        e0 ∙ (ap (◌++◌ (complete b)) ih0 ∙ sym (complete-append b (flatten chunks))),
        ih1 ∙ sym (pending-append b (flatten chunks)),
        e1,
      )

-- Nothing is lost, added or reordered: the packets and the buffer at the end spell what arrived. Each
-- packet ends with a newline, and the buffer holds none.
pub receive_stream :
    (chunks : List Text)
    → let (packets, buffer) = receive chunks [] in
      (flatten packets ++ buffer ≡ flatten chunks)
      × All (λ p. ends_line p ≡ true) packets
      × (contains newline buffer ≡ false)
unfolding contains
receive_stream chunks =
    let (all, rest, ends) = receive_lem chunks [] refl in
    (
      rw (all, rest) (complete-append-pending (flatten chunks)),
      ends,
      rw rest (pending-Lacks (flatten chunks)),
    )

-- Chunks that spell the same text give packets that spell the same text and leave the same buffer.
pub receive_chunks :
    (xs ys : List Text)
    → flatten xs ≡ flatten ys
    → (flatten (receive xs []).0 ≡ flatten (receive ys []).0)
      × ((receive xs []).1 ≡ (receive ys []).1)
unfolding contains
receive_chunks xs ys h =
    let (all_x, rest_x, _) = receive_lem xs [] refl in
    let (all_y, rest_y, _) = receive_lem ys [] refl in
    (all_x ∙ (ap complete h ∙ sym all_y), rest_x ∙ (ap pending h ∙ sym rest_y))
