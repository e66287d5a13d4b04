-- ===== src/Csc/Sessions/Handing.antt =====
-- Where the attachments come to that crates/csc/src/daemon_sink.rs accepts.
use localref.Base.{
  ◌≡◌, refl, ap, sym, ◌∙◌, List, [], ◌∷◌, ◌++◌, Bool, true, false, ◌||◌, if◌then◌else◌, Option,
  none, some, Result, ok, err, LocalrefError, any, any-append, arith,
}
use localref.Platformfs.Merging.{is_some}
use localref.Csc.Sessions.{
  ConnectorAttachment, ConnectorItem, Spot, session_index, failed, Reply, ImportOutcome,
  ConnectorSession, accepted, ConnectorDaemon,
}
use localref.Csc.Sessions.Sink.{
  Answer, accept_attachment, accept_orphan, accept_into, accept_at, standalone, buffered,
  with_attachment, replied, pruned, with_session, settle, import_session, import_of,
  try_import_locked,
}
use localref.Csc.Sessions.Waiting.{waits}
use localref.Csc.Sessions.Keeping.{KeepsFiles, is_kept, attachment-kept}

-- What a call of the daemon answers, with the attachments that it was handed if it succeeded.
abbrev pub taken :
    {Value D A : Type 0}
    → List (ConnectorAttachment Value)
    → List (ConnectorAttachment Value)
    → Result A × D
    → Result A × (List (ConnectorAttachment Value) × D)
taken given handed (ok a, d) = (ok a, (given ++ handed, d))
taken given handed (err problem, d) = (err problem, (handed, d))

-- A daemon, with a list beside it of the attachments that its successful calls were handed.
abbrev pub recording :
    {Value D : Type 0}
    → ConnectorDaemon Value D
    → ConnectorDaemon Value (List (ConnectorAttachment Value) × D)
recording daemon = record {
  import_connector_item = λ i s. taken i.attachments s.0 (daemon.import_connector_item i s.1);
  save_connector_attachment_to_item =
      λ dir a s. taken (a ∷ []) s.0 (daemon.save_connector_attachment_to_item dir a s.1);
  url_of = daemon.url_of;
  titled = daemon.titled;
}

module _ {Value D : Type 0} (daemon : ConnectorDaemon Value D) where
  taken-ok :
      {A : Type 0} (p : ConnectorAttachment Value → Bool)
      (given handed : List (ConnectorAttachment Value)) (result : Result A × D)
      (after : List (ConnectorAttachment Value) × D) (a : A)
      → taken given handed result ≡ (ok a, after)
      → any p after.0 ≡ (any p given || any p handed)
  taken-ok p given handed (ok b, d) after a h =
      let same = ap (λ r. r.1.0) h in ap (any p) (sym same) ∙ any-append p given handed
  taken-ok p given handed (err problem, d) after a h = ground arith

  taken-err :
      {A : Type 0} (p : ConnectorAttachment Value → Bool)
      (given handed : List (ConnectorAttachment Value)) (result : Result A × D)
      (after : List (ConnectorAttachment Value) × D) (e : LocalrefError)
      → taken given handed result ≡ (err e, after)
      → any p after.0 ≡ any p handed
  taken-err p given handed (ok b, d) after e h = ground arith
  taken-err p given handed (err problem, d) after e h = ap (λ r. any p r.1.0) (sym h)

  abbrev Handed : Type 0
  Handed = List (ConnectorAttachment Value)

  saved-ok :
      {A : Type 0} (p : ConnectorAttachment Value → Bool) (given : ConnectorAttachment Value)
      (handed : List (ConnectorAttachment Value)) (result : Result A × D)
      (after : List (ConnectorAttachment Value) × D) (a : A)
      → taken (given ∷ []) handed result ≡ (ok a, after)
      → any p after.0 ≡ (p given || any p handed)
  unfolding any
  saved-ok p given handed result after a h =
      ground (arith, taken-ok p (given ∷ []) handed result after a h)

  abbrev recording_keeps : KeepsFiles (recording daemon)
  recording_keeps = record {
    files = λ s. s.0;
    imports =
        λ p i s t o h. taken-ok p i.attachments s.0 (daemon.import_connector_item i s.1) t o h;
    import_fails =
        λ p i s t e h. taken-err p i.attachments s.0 (daemon.import_connector_item i s.1) t e h;
    saves = λ p dir path a s t h.
        saved-ok p a s.0 (daemon.save_connector_attachment_to_item dir a s.1) t path h;
  }

  -- An answer without the list.
  abbrev forget : Answer Value (Handed × D) → Answer Value D
  forget (reply, ss, (handed, d)) = (reply, ss, d)

  forget-with_session :
      (s : ConnectorSession Value) (answer : Answer Value (Handed × D))
      → forget (with_session (recording daemon) s answer) ≡ with_session daemon s (forget answer)
  forget-with_session s (reply, ss, (handed, d)) = refl

  forget-settle :
      (s : ConnectorSession Value) (ss : List (ConnectorSession Value))
      (others' : Handed × D → Answer Value (Handed × D)) (others : D → Answer Value D)
      (given handed : Handed) (result : Result ImportOutcome × D)
      → ((handed : Handed) (d : D) → forget (others' (handed, d)) ≡ others d)
      → forget (settle (recording daemon) s ss others' (taken given handed result))
        ≡ settle daemon s ss others result
  forget-settle s ss others' others given handed (err problem, d) h = refl
  forget-settle s ss others' others given handed (ok outcome, d) h =
      forget-with_session (record s { outcome = some outcome }) (others' (given ++ handed, d))
      ∙ ap (with_session daemon (record s { outcome = some outcome })) (h (given ++ handed) d)

  forget-import_session :
      (s : ConnectorSession Value) (ss : List (ConnectorSession Value))
      (others' : Handed × D → Answer Value (Handed × D)) (others : D → Answer Value D)
      (handed : Handed) (d : D) (o : Option ImportOutcome) (items : List (ConnectorItem Value))
      → ((handed : Handed) (d : D) → forget (others' (handed, d)) ≡ others d)
      → forget (import_session (recording daemon) s ss others' o items (handed, d))
        ≡ import_session daemon s ss others o items d
  forget-import_session s ss others' others handed d (some outcome) items h =
      forget-with_session s (others' (handed, d)) ∙ ap (with_session daemon s) (h handed d)
  forget-import_session s ss others' others handed d none [] h =
      forget-with_session s (others' (handed, d)) ∙ ap (with_session daemon s) (h handed d)
  forget-import_session s ss others' others handed d none (item ∷ items) h =
      forget-settle s ss others' others s.attachments handed
        (daemon.import_connector_item (import_of daemon s item) d) h

  forget-try_import_locked :
      (ss : List (ConnectorSession Value)) (handed : Handed) (d : D)
      → forget (try_import_locked (recording daemon) ss (handed, d)) ≡ try_import_locked daemon ss d
  unfolding try_import_locked
  forget-try_import_locked [] handed d = refl
  forget-try_import_locked (s ∷ ss) handed d =
      forget-import_session s ss (try_import_locked (recording daemon) ss)
        (try_import_locked daemon ss) handed d s.outcome s.items (forget-try_import_locked ss)

  forget-pruned :
      (answer : Answer Value (Handed × D))
      → forget (pruned (recording daemon) answer) ≡ pruned daemon (forget answer)
  forget-pruned (accepted, ss, (handed, d)) = refl
  forget-pruned (failed m, ss, (handed, d)) = refl

  forget-replied :
      {A : Type 0} (ss : List (ConnectorSession Value)) (given handed : Handed)
      (result : Result A × D)
      → forget (replied (recording daemon) ss (taken given handed result))
        ≡ replied daemon ss result
  forget-replied ss given handed (ok a, d) = refl
  forget-replied ss given handed (err problem, d) = refl

  forget-if :
      (b : Bool) (x y : Answer Value (Handed × D)) (x' y' : Answer Value D)
      → forget x ≡ x'
      → forget y ≡ y'
      → forget (if b then x else y) ≡ (if b then x' else y')
  forget-if true x y x' y' h k = h
  forget-if false x y x' y' h k = k

  forget-accept_orphan :
      (a : ConnectorAttachment Value) (ss : List (ConnectorSession Value)) (handed : Handed) (d : D)
      → forget (accept_orphan (recording daemon) a ss (handed, d)) ≡ accept_orphan daemon a ss d
  unfolding accept_orphan standalone
  forget-accept_orphan a ss handed d =
      forget-if (is_some a.parent_item_id)
        (accepted, ss ++ buffered (recording daemon) a ∷ [], (handed, d))
        (replied (recording daemon) ss
          ((recording daemon).import_connector_item (standalone (recording daemon) a) (handed, d)))
        (accepted, ss ++ buffered daemon a ∷ [], d)
        (replied daemon ss (daemon.import_connector_item (standalone daemon a) d)) refl
        (forget-replied ss (a ∷ []) handed (daemon.import_connector_item (standalone daemon a) d))

  forget-accept_into :
      (a : ConnectorAttachment Value) (before : List (ConnectorSession Value))
      (s : ConnectorSession Value) (behind : List (ConnectorSession Value))
      (o : Option ImportOutcome) (handed : Handed) (d : D)
      → forget (accept_into (recording daemon) a before s behind o (handed, d))
        ≡ accept_into daemon a before s behind o d
  forget-accept_into a before s behind (some outcome) handed d =
      let result = daemon.save_connector_attachment_to_item outcome.item_dir a d in
      let ss = before ++ s ∷ behind in
      forget-pruned (replied (recording daemon) ss (taken (a ∷ []) handed result))
      ∙ ap (pruned daemon) (forget-replied ss (a ∷ []) handed result)
  forget-accept_into a before s behind none handed d =
      let ss = before ++ with_attachment s a ∷ behind in
      forget-pruned (try_import_locked (recording daemon) ss (handed, d))
      ∙ ap (pruned daemon) (forget-try_import_locked ss handed d)

  forget-accept_at :
      (a : ConnectorAttachment Value) (ss : List (ConnectorSession Value))
      (spot : Option (Spot Value)) (handed : Handed) (d : D)
      → forget (accept_at (recording daemon) a ss spot (handed, d)) ≡ accept_at daemon a ss spot d
  forget-accept_at a ss none handed d = forget-accept_orphan a ss handed d
  forget-accept_at a ss (some (before, s, behind)) handed d =
      forget-accept_into a before s behind s.outcome handed d

  forget-accept_attachment :
      (a : ConnectorAttachment Value) (ss : List (ConnectorSession Value)) (handed : Handed) (d : D)
      → forget (accept_attachment (recording daemon) a ss (handed, d))
        ≡ accept_attachment daemon a ss d
  unfolding accept_attachment
  forget-accept_attachment a ss handed d = forget-accept_at a ss (session_index a ss) handed d

  remembered :
      (answer : Answer Value (Handed × D)) (reply : Reply) (ss : List (ConnectorSession Value))
      (d : D)
      → forget answer ≡ (reply, ss, d)
      → answer ≡ (reply, ss, (answer.2.0, d))
  remembered (r, s, (handed, c)) reply ss d h = ap (λ x. (x.0, x.1, (handed, x.2))) h

  -- No attachment is lost, whatever the daemon does. Beside it stands a list of what its successful
  -- calls were handed. When an attachment is accepted and it, or one that was handed over or that
  -- waits, has a property, then with the list the sink ends in the same sessions and the same daemon,
  -- and one that was handed over or that waits with a session that is not imported has the property.
  pub accept_attachment-handed :
      (p : ConnectorAttachment Value → Bool) (a : ConnectorAttachment Value)
      (ss ss' : List (ConnectorSession Value)) (handed : List (ConnectorAttachment Value))
      (d d' : D)
      → (p a || any p handed || waits p ss) ≡ true
      → accept_attachment daemon a ss d ≡ (accepted, ss', d')
      → (handed' : List (ConnectorAttachment Value)) × (accept_attachment
            (recording daemon)
            a
            ss
            (handed, d)
          ≡ (accepted, ss', (handed', d')))
        × ((any p handed' || waits p ss') ≡ true)
  unfolding is_kept
  accept_attachment-handed p a ss ss' handed d d' h e =
      let answer = accept_attachment (recording daemon) a ss (handed, d) in
      let same = forget-accept_attachment a ss handed d ∙ e in
      let whole : answer ≡ (accepted, ss', (answer.2.0, d')) =
        remembered answer accepted ss' d' same in
      (
        answer.2.0,
        whole,
        attachment-kept (recording daemon) recording_keeps p a ss ss' (handed, d) (answer.2.0, d')
            (ground arith) whole,
      )
