-- ===== src/Runtime/Closing/Proven.antt =====
-- A thread ends only on the exchange's word.
use trade_gate.Prelude.{
  ◌≡◌, ◌≢◌, refl, ◌⊎◌, Bool, true, false, sym, subst, Option, none, some, String, [], ◌∷◌, arith,
  contains, ◌==◌, string_eq, Option-cases, Bool-cases, inl, inr, if◌then◌else◌,
}
use trade_gate.Dict
use trade_gate.Graph.Types.{pending_entry, closed, canceled, status_eq}
use trade_gate.Threads.Types.{StrategyThread, other, close_failed}
use trade_gate.Threads.Opening.{is_open}
use trade_gate.Runtime.World.{
  World, DemoIntent, approved, close_leg, save_thread, save_intent, Ids, next_leg_cid, x_leg,
  given_text,
}
use trade_gate.Runtime.Protection.Stored.{IsKeyed, Stored, Stored-save}
use trade_gate.Runtime.Closing.{
  ClosingFacts, ClosingReplies, closing_intent, new_intent, cancel_now, cancel_entry, prove_flat,
  end_closing, close_position_of, close_thread_now, CloseError, close_error, close_thread,
  is_being_sent,
}

-- The exchange says that the position is gone: the closing says so without an error, or a fresh
-- account has no position on the symbol.
abbrev pub IsFlat : String → ClosingReplies → Type 0
IsFlat symbol replies =
    (given_text replies.close.error ≡ none)
    × ((replies.close.closed ≡ true) ⊎ (contains symbol replies.fresh ≡ false))

-- What a closing of `t` leaves as `s`.
abbrev pub IsEnded : ClosingReplies → StrategyThread → StrategyThread → Type 0
IsEnded replies t s =
    ((s.status ≡ canceled)
      × (t.status ≡ pending_entry)
      × ((given_text t.entry_client_order_id ≡ none) ⊎ (replies.cancel.ok ≡ true)))
    ⊎ (((s.status ≡ closed) × (t.status ≢ pending_entry) × IsFlat t.symbol replies)
        ⊎ ((s.status ≡ t.status)
            × ((s.attention ≡ some (other "CANCEL_UNKNOWN")) ⊎ (s.attention ≡ some close_failed))))

cancel_now-IsEnded :
    (f : ClosingFacts) (reason : String) (replies : ClosingReplies) (t : StrategyThread) (w : World)
    → t.status ≡ pending_entry
    → (given_text t.entry_client_order_id ≡ none) ⊎ (replies.cancel.ok ≡ true)
    → Stored t.id (IsEnded replies t) (cancel_now f reason t w)
unfolding cancel_now
cancel_now-IsEnded f reason replies t w p c = Stored-save (IsEnded replies t) _ w (inl (refl, p, c))

nothing_sent :
    (f : ClosingFacts) (reason : String) (replies : ClosingReplies) (t : StrategyThread) (w : World)
    → given_text t.entry_client_order_id ≡ none
    → cancel_entry f reason replies t w ≡ cancel_now f reason t w
unfolding cancel_entry
nothing_sent f reason replies t w e = rw (e, cancel_entry) refl

canceled_order :
    (f : ClosingFacts) (reason : String) (replies : ClosingReplies) (t : StrategyThread) (w : World)
    (cid : String)
    → given_text t.entry_client_order_id ≡ some cid
    → replies.cancel.ok ≡ true
    → cancel_entry f reason replies t w ≡ cancel_now f reason t (replies.after_cancel w)
unfolding cancel_entry
canceled_order f reason replies t w cid e b = rw (e, b, cancel_entry) refl

cancel_entry-IsEnded :
    (f : ClosingFacts) (reason : String) (replies : ClosingReplies) (t : StrategyThread) (w : World)
    → t.status ≡ pending_entry
    → Stored t.id (IsEnded replies t) (cancel_entry f reason replies t w)
unfolding cancel_entry cancel_now
cancel_entry-IsEnded f reason replies t w p =
    elim (Option-cases (given_text t.entry_client_order_id)) [
      | inl e ↦
          subst (λ x. Stored t.id (IsEnded replies t) x) (sym (nothing_sent f reason replies t w e))
            (cancel_now-IsEnded f reason replies t w p (inl e))
      | inr (cid, e) ↦ elim (Bool-cases replies.cancel.ok) [
        | inl b ↦
            subst (λ x. Stored t.id (IsEnded replies t) x)
              (sym (canceled_order f reason replies t w cid e b))
              (cancel_now-IsEnded f reason replies t (replies.after_cancel w) p (inr b))
        | inr b ↦
            rw (e, b, cancel_entry)
              (Stored-save _ _ (replies.after_cancel w) (inr (inr (refl, inl refl))))
      ]
    ]

prove_flat-IsFlat :
    (symbol : String) (replies : ClosingReplies) (w : World)
    → (prove_flat symbol replies w).0 ≡ true
    → IsFlat symbol replies
unfolding prove_flat
prove_flat-IsFlat symbol replies w h = ground (arith, h)

end_closing-IsEnded :
    (f : ClosingFacts) (reason : String) (replies : ClosingReplies) (t0 t : StrategyThread)
    (i : DemoIntent) (r : Bool × World)
    → t0.status ≢ pending_entry
    → t.status ≡ t0.status
    → (r.0 ≡ true → IsFlat t0.symbol replies)
    → Stored t.id (IsEnded replies t0) (end_closing f reason replies t i r)
unfolding end_closing
end_closing-IsEnded f reason replies t0 t i (true, w) n s h =
    Stored-save (IsEnded replies t0) _ _ (inr (inl (refl, n, h refl)))
end_closing-IsEnded f reason replies t0 t i (false, w) n s h =
    Stored-save (IsEnded replies t0) _ _ (inr (inr (s, inr refl)))

close_position-IsEnded :
    (ids : Ids) (f : ClosingFacts) (reason : String) (replies : ClosingReplies) (t : StrategyThread)
    (w : World)
    → t.status ≢ pending_entry
    → Stored t.id (IsEnded replies t) (close_position_of ids f reason replies t w)
unfolding close_position_of next_leg_cid
close_position-IsEnded ids f reason replies t w n =
    let i0 = closing_intent f t in
    let m = next_leg_cid ids t x_leg in
    let i1 : DemoIntent = record i0 { status = approved; client_order_id = some m.0 } in
    let w1 = save_intent f.episode i1 (save_thread m.1 (new_intent i0 f.episode t w)) in
    let w2 = replies.after_close (replies.after_cancel_all w1) in
    let leg = close_leg replies.close.closed replies.close.error in
    let i2 : DemoIntent = record i1 { receipts = leg ∷ [] } in
    end_closing-IsEnded f reason replies t m.1 i2 (prove_flat t.symbol replies w2) n refl
      (prove_flat-IsFlat t.symbol replies w2)

-- A property of both branches of a test, each with the test's value.
decided {ℓ κ} :
    {A : Type ℓ} (P : A → Type κ) (b : Bool) {x y : A}
    → (b ≡ true → P x)
    → (b ≡ false → P y)
    → P (if b then x else y)
decided P true p q = p refl
decided P false p q = q refl

not_both : (t : StrategyThread) → (t.status == pending_entry) ≡ false → t.status ≡ pending_entry → ⊥
not_both t b e = ground (arith, b, (status_eq.beq_iff t.status pending_entry).1 e)

close_thread_now-IsEnded :
    (ids : Ids) (f : ClosingFacts) (reason : String) (replies : ClosingReplies) (t : StrategyThread)
    (w : World)
    → Stored t.id (IsEnded replies t) (close_thread_now ids f reason replies t w)
unfolding close_thread_now
close_thread_now-IsEnded ids f reason replies t w =
    decided (λ x. Stored t.id (IsEnded replies t) x) (t.status == pending_entry)
      (λ b.
        cancel_entry-IsEnded f reason replies t w ((status_eq.beq_iff t.status pending_entry).0 b))
      (λ b. close_position-IsEnded ids f reason replies t w (λ e. not_both t b e))

-- What `closeThread` answers, and what the store then has.
abbrev pub Closes : String → ClosingReplies → World → World × Option CloseError → Type 0
Closes id replies w (after, some e) = after ≡ w
Closes id replies w (after, none) =
    (t : StrategyThread) × (Dict.get id w.threads ≡ some t)
    × (is_open t ≡ true)
    × (is_being_sent t ≡ false)
    × Stored id (IsEnded replies t) after

no_error :
    (t : StrategyThread)
    → close_error (some t) ≡ none
    → (is_open t ≡ true) × (is_being_sent t ≡ false)
unfolding close_error
no_error t h = ground (arith, h)

accepted_closing :
    (ids : Ids) (f : ClosingFacts) (reason : String) (replies : ClosingReplies) (id : String)
    (w : World) (t : StrategyThread)
    → Dict.get id w.threads ≡ some t
    → close_error (some t) ≡ none
    → close_thread ids f reason replies id w ≡ (close_thread_now ids f reason replies t w, none)
unfolding close_thread
accepted_closing ids f reason replies id w t e g = rw (e, g, close_thread) refl

-- A thread ends only on the exchange's word. In a store that has each thread under its id: where
-- `closeThread` throws, nothing changes. Else the thread was open and its entry not being sent, and
-- the store has it as canceled only if it waited for its entry and no order was sent or its
-- cancellation was confirmed; as closed only if it did not wait, and the closing was confirmed
-- without an error, or made none and a fresh account shows no position on the symbol; and with its
-- status as it was, and the mark of an unknown cancellation or of a failed closing, otherwise.
pub close_thread-Closes :
    (ids : Ids) (f : ClosingFacts) (reason : String) (replies : ClosingReplies) (id : String)
    (w : World)
    → IsKeyed w
    → Closes id replies w (close_thread ids f reason replies id w)
unfolding close_thread
close_thread-Closes ids f reason replies id w keyed = elim (Option-cases (Dict.get id w.threads)) [
  | inl e ↦ rw (e, close_thread) refl
  | inr (t, e) ↦ elim (Option-cases (close_error (some t))) [
    | inr (x, g) ↦ rw (e, g, close_thread) refl
    | inl g ↦
        let (o, s) = no_error t g in
        subst (λ x. Closes id replies w x) (sym (accepted_closing ids f reason replies id w t e g))
          (
            t,
            e,
            o,
            s,
            subst (λ k. Stored k (IsEnded replies t) (close_thread_now ids f reason replies t w))
                (keyed id t e) (close_thread_now-IsEnded ids f reason replies t w),
          )
  ]
]
