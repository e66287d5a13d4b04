-- ===== src/Csc/Sessions/Waiting.antt =====
-- The attachments that wait with sessions of crates/csc/src/daemon_sink.rs.
use localref.Base.{
  ℕ, ◌-◌, ◌≡◌, refl, Text, List, [], ◌∷◌, ◌++◌, Bool, true, false, not, ◌&&◌, ◌||◌, Option, none,
  some, arith, Bool-cases, inl, inr, any, any-append,
}
use localref.Platformfs.Merging.{is_some}
use localref.Csc.Sessions.{
  ConnectorAttachment, ConnectorSession, Spot, is_completed, drop_completed, option_eq, position,
  last_session, one_later, or_here, or_last, session_index,
}
use localref.Csc.Sessions.Sink.{with_attachment}

module _ {Value : Type 0} (p : ConnectorAttachment Value → Bool) where
  -- An attachment with the property waits with a session.
  abbrev pub waits_with : ConnectorSession Value → Bool
  waits_with s = not (is_completed s) && any p s.attachments

  unfoldable pub waits : List (ConnectorSession Value) → Bool
  waits sessions = any waits_with sessions

  pub drop_completed-waits :
      (n : ℕ) (ss : List (ConnectorSession Value)) → waits (drop_completed n ss) ≡ waits ss
  unfolding waits any drop_completed
  drop_completed-waits n [] = refl
  drop_completed-waits n (s ∷ ss) =
      ground (arith, drop_completed-waits n ss, drop_completed-waits (n - 1) ss)

  -- Whether one waits before, at or behind a spot.
  abbrev pub waits_around : List (ConnectorSession Value) → Option (Spot Value) → Bool
  waits_around sessions none = waits sessions
  waits_around sessions (some (before, s, behind)) = waits (before ++ s ∷ behind)

  waits_around-later :
      (s : ConnectorSession Value) (ss : List (ConnectorSession Value)) (spot : Option (Spot Value))
      → waits_around (s ∷ ss) (one_later s spot) ≡ (waits_with s || waits_around ss spot)
  unfolding waits any
  waits_around-later s ss none = refl
  waits_around-later s ss (some (before, found, behind)) = refl

  waits_around-position :
      (id : Option Text) (ss : List (ConnectorSession Value))
      → waits_around ss (position id ss) ≡ waits ss
  unfolding waits any position
  waits_around-position id [] = refl
  waits_around-position id (s ∷ ss) = elim (Bool-cases (option_eq s.session_id id)) [
    | inl e ↦ ground arith
    | inr e ↦ ground (arith, waits_around-later s ss (position id ss), waits_around-position id ss)
  ]

  or_here-around :
      (s : ConnectorSession Value) (ss : List (ConnectorSession Value)) (spot : Option (Spot Value))
      → waits_around ss spot ≡ waits ss
      → (spot ≡ none → waits ss ≡ false)
      → waits_around (s ∷ ss) (or_here s spot) ≡ waits (s ∷ ss)
  unfolding waits any
  or_here-around s ss none h k = ground (arith, k refl)
  or_here-around s ss (some (before, found, behind)) h k = ground arith

  or_here-none :
      (s : ConnectorSession Value) (spot : Option (Spot Value)) → or_here s spot ≡ none → ⊥
  or_here-none s none e = ground arith
  or_here-none s (some spot) e = ground arith

  waits_around-last :
      (ss : List (ConnectorSession Value))
      → (waits_around ss (last_session ss) ≡ waits ss) × (last_session ss ≡ none → waits ss ≡ false)
  unfolding waits any last_session
  waits_around-last [] = (refl, λ e. refl)
  waits_around-last (s ∷ ss) =
      let (around, empty) = waits_around-last ss in
      (
        or_here-around s ss (last_session ss) around empty,
        λ e. absurd (or_here-none s (last_session ss) e),
      )

  or_last-around :
      (a : ConnectorAttachment Value) (ss : List (ConnectorSession Value))
      (spot : Option (Spot Value))
      → waits_around ss spot ≡ waits ss
      → waits_around ss (or_last a ss spot) ≡ waits ss
  unfolding or_last
  or_last-around a ss (some spot) h = h
  or_last-around a ss none h =
      elim (Bool-cases (not (is_some a.session_id) || is_some a.parent_item_id)) [
        | inl e ↦ ground (arith, (waits_around-last ss).0)
        | inr e ↦ ground arith
      ]

  pub waits_around-index :
      (a : ConnectorAttachment Value) (ss : List (ConnectorSession Value))
      → waits_around ss (session_index a ss) ≡ waits ss
  unfolding session_index
  waits_around-index a ss =
      or_last-around a ss (position a.session_id ss) (waits_around-position a.session_id ss)

  pub waits-with_attachment :
      (a : ConnectorAttachment Value) (s : ConnectorSession Value)
      (before behind : List (ConnectorSession Value))
      → s.outcome ≡ none
      → (p a || waits (before ++ s ∷ behind)) ≡ true
      → waits (before ++ with_attachment s a ∷ behind) ≡ true
  unfolding waits any
  waits-with_attachment a s before behind o h = ground (
    arith,
    any-append waits_with before (s ∷ behind),
    any-append waits_with before (with_attachment s a ∷ behind),
    any-append p s.attachments (a ∷ []),
  )
