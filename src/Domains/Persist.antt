-- ===== src/Domains/Persist.antt =====
-- The persist phases of `Set` and `ReportFailure` in backend/internal/domains/store.go, interleaved:
-- `persistMu` has one holder, the cache changes under `mu`, and a rotation is cached before its
-- persist phase begins.
use marauder.Prelude.{
  ◌≤◌, ◌≡◌, refl, sym, ap, ◌∙◌, subst, ◌⊎◌, inl, inr, true, false, Option, none, some, List, [],
  ◌∷◌, ◌++◌, arith, ltb, Bool-cases, length, Text, text_eq, text_eq_iff, text_eq_refl,
}
use marauder.Prelude.Int.{ℤ}
use marauder.Domains.{DomainConfig, Store, new, put, revalidated, load, set, report_failure}
use marauder.Domains.Writes.{
  World, Step, table, table_of, Reach, free, setting, persisting, quiet, rotated, begin_persist,
  end_persist, lose_persist, begin_set, end_set, at_boot, next,
}

-- A row and the cached configuration, where neither is being written: they are the same, or the row is
-- as it was at the boot, and the cache has what `Load` made of it.
abbrev pub Settled : (Text → Text) → Option (List Text) → (boot row cfg : DomainConfig) → Type 0
Settled clean known boot row cfg =
    (row ≡ cfg) ⊎ ((row ≡ boot) × (cfg ≡ revalidated clean known row))

module _ (clean : Text → Text) (plugin : Text → Option (List Text)) where
  load-revalidated :
      (rows : List (Text × DomainConfig)) (s : Store) (m : Text → DomainConfig)
      → ((x : Text) → s.cfg x ≡ revalidated clean (plugin x) (m x))
      → (x : Text)
      → (load clean plugin rows s).cfg x ≡ revalidated clean (plugin x) (table rows m x)
  unfolding load table put
  load-revalidated [] s m h x = h x
  load-revalidated ((name, c) ∷ rows) s m h x =
      load-revalidated rows (record s { cfg = put s.cfg name (revalidated clean (plugin name) c) })
        (put m name c)
        (λ y. elim (Bool-cases (text_eq y name)) [
          | inl eq ↦
              rw eq (ap (λ z. revalidated clean (plugin z) c) (sym ((text_eq_iff y name).0 eq)))
          | inr ne ↦ rw ne (h y)
        ])
        x

  new-revalidated : (x : Text) → new.cfg x ≡ revalidated clean (plugin x) (new.cfg x)
  unfolding revalidated text_eq
  new-revalidated x = refl

-- What holds a tracker's row and its cached configuration together, from a boot on the rows `boot`.
pub data Agrees (clean : Text → Text) (plugin : Text → Option (List Text))
    (boot : Text → DomainConfig) (w : World) (name : Text) : Type 0 where
  same :
      Settled clean (plugin name) (boot name) (w.rows name) (w.store.cfg name)
      → Agrees clean plugin boot w name
  waiting : 1 ≤ w.pending name → Agrees clean plugin boot w name
  being_set :
      (c : DomainConfig)
      → w.holder ≡ setting name c
      → w.rows name ≡ c
      → Agrees clean plugin boot w name
  was_lost : w.lost name ≡ true → Agrees clean plugin boot w name

-- What the holder of the mutex has in hand: a rotation's persist phase has the cached configuration,
-- or a later rotation waits too.
pub data Held (w : World) : Type 0 where
  none_held : w.holder ≡ free → Held w
  set_held : (name : Text) (c : DomainConfig) → w.holder ≡ setting name c → w.rows name ≡ c → Held w
  fresh_held :
      (name : Text) (c : DomainConfig)
      → w.holder ≡ persisting name c
      → (c ≡ w.store.cfg name) ⊎ (2 ≤ w.pending name)
      → 1 ≤ w.pending name
      → Held w

pub record Consistent (clean : Text → Text) (plugin : Text → Option (List Text))
    (boot : Text → DomainConfig) (w : World) : Type 0 where
  pub agrees : (name : Text) → Agrees clean plugin boot w name
  pub held : Held w

-- A report changes the cached configuration of its tracker alone, and only if it rotates.
report-cfg :
    (plugin : Option (List Text)) (name : Text) (now : ℤ) (st s : Store) (r : Option (Text × Text))
    → report_failure plugin name now st ≡ (s, r)
    → (x : Text) → (r ≡ none) ⊎ (text_eq x name ≡ false)
    → s.cfg x ≡ st.cfg x
unfolding report_failure marauder.Domains.rotate marauder.Domains.count_failure put
report-cfg none name now st s r e x why = ap (λ p. p.0.cfg x) (sym e)
report-cfg (some known) name now st s r e x why =
    elim (Bool-cases (ltb (length (known ++ (st.cfg name).custom)) 2)) [
      | inl few ↦ ap (λ p. p.0.cfg x) (sym (rw few at e))
      | inr many ↦ elim (Bool-cases (marauder.Domains.in_cooldown (st.last_rotate name) now)) [
        | inl hot ↦ ap (λ p. p.0.cfg x) (sym (rw hot at (rw many at e)))
        | inr cool ↦
            elim (Bool-cases (
              ltb (marauder.Domains.counted st name now)
                marauder.Domains.rotate_failure_threshold)) [
                  | inl low ↦ ap (λ p. p.0.cfg x) (sym (rw low at (rw cool at (rw many at e))))
                  | inr high ↦
                      let e' = rw high at (rw cool at (rw many at e)) in
                      elim why [
                        | inl k ↦ absurd (cc (ap (λ p. p.1) e', k))
                        | inr ne ↦ ap (λ p. p.0.cfg x) (sym e') ∙ rw ne refl
                      ]
                ]
      ]
    ]

mutex_persisting :
    (w : World) (name : Text) (d : DomainConfig)
    → Held w
    → w.holder ≡ persisting name d
    → (d ≡ w.store.cfg name) ⊎ (2 ≤ w.pending name)
mutex_persisting w name d (none_held h) e = cc
mutex_persisting w name d (set_held m c h a) e = cc
mutex_persisting w name d (fresh_held m c h a p) e =
    let one : m ≡ name = cc in let two : c ≡ d = cc in rw (← one, ← two) a

mutex_setting :
    (w : World) (name : Text) (d : DomainConfig)
    → Held w
    → w.holder ≡ setting name d
    → w.rows name ≡ d
mutex_setting w name d (none_held h) e = cc
mutex_setting w name d (set_held m c h a) e =
    let one : m ≡ name = cc in let two : c ≡ d = cc in rw (← one, ← two) a
mutex_setting w name d (fresh_held m c h a p) e = cc

module _ (clean : Text → Text) (plugin : Text → Option (List Text))
    (boot : Text → DomainConfig) where
  recached :
      {name : Text} {row c c' : DomainConfig}
      → c' ≡ c
      → Settled clean (plugin name) (boot name) row c
      → Settled clean (plugin name) (boot name) row c'
  recached {name} {row} e a = subst (Settled clean (plugin name) (boot name) row) (sym e) a

  -- A step that changes one tracker's row, pending count and holder: the other trackers as before.
  Step-Consistent :
      {v w : World}
      → Step plugin v w
      → Consistent clean plugin boot v
      → Consistent clean plugin boot w
  unfolding put set
  Step-Consistent (quiet name now w s e) c = record {
    agrees = λ x.
        let k = report-cfg (plugin name) name now w.store s none e x (inl refl) in
        elim (c.agrees x) [
          | same a ↦ same (recached k a)
          | waiting a ↦ waiting a
          | being_set d h a ↦ being_set d h a
          | was_lost a ↦ was_lost a
        ];
    held = elim c.held [
      | none_held h ↦ none_held h
      | set_held m d h a ↦ set_held m d h a
      | fresh_held m d h a p ↦
          fresh_held m d h
            (elim a [
              | inl f ↦
                  inl (f ∙ sym (report-cfg (plugin name) name now w.store s none e m (inl refl)))
              | inr two ↦ inr two
            ])
            p
    ];
  }
  Step-Consistent (rotated name now w s change e) c = record {
    agrees = λ x. elim (Bool-cases (text_eq x name)) [
      | inl eq ↦ waiting (rw eq (omega arith))
      | inr ne ↦
          let k = report-cfg (plugin name) name now w.store s (some change) e x (inr ne) in
          elim (c.agrees x) [
            | same a ↦ same (recached k a)
            | waiting a ↦ waiting (rw ne a)
            | being_set d h a ↦ being_set d h a
            | was_lost a ↦ was_lost a
          ]
    ];
    held = elim c.held [
      | none_held h ↦ none_held h
      | set_held m d h a ↦ set_held m d h a
      | fresh_held m d h a p ↦ elim (Bool-cases (text_eq m name)) [
        | inl eq ↦
            let here : m ≡ name = (text_eq_iff m name).0 eq in
            let more : 1 ≤ w.pending name = subst (λ y. 1 ≤ w.pending y) here p in
            fresh_held m d h (inr (rw eq (omega arith))) (rw eq (omega arith))
        | inr ne ↦
            fresh_held m d h
              (elim a [
                | inl f ↦ inl (
                    f
                    ∙ sym (report-cfg (plugin name) name now w.store s (some change) e m (inr ne)))
                | inr two ↦ inr (rw ne two)
              ])
              (rw ne p)
      ]
    ];
  }
  Step-Consistent (begin_persist name n w f p) c = record {
    agrees = λ x. elim (c.agrees x) [
      | same a ↦ same a
      | waiting a ↦ waiting a
      | being_set d h a ↦ absurd (cc (f, h))
      | was_lost a ↦ was_lost a
    ];
    held = fresh_held name (w.store.cfg name) refl (inl refl) (omega (arith, p));
  }
  Step-Consistent (end_persist name d n w h p) c = record {
    agrees = λ x. elim (Bool-cases (text_eq x name)) [
      | inl eq ↦
          let here : x ≡ name = (text_eq_iff x name).0 eq in
          elim (mutex_persisting w name d c.held h) [
            | inl f ↦ same (inl (rw eq (f ∙ sym (ap w.store.cfg here))))
            | inr two ↦ waiting (rw eq (omega (arith, p, two)))
          ]
      | inr ne ↦ elim (c.agrees x) [
        | same a ↦ same (rw ne a)
        | waiting a ↦ waiting (rw ne a)
        | being_set e k a ↦ absurd (cc (h, k))
        | was_lost a ↦ was_lost a
      ]
    ];
    held = none_held refl;
  }
  Step-Consistent (lose_persist name d n w h p) c = record {
    agrees = λ x. elim (Bool-cases (text_eq x name)) [
      | inl eq ↦ was_lost (rw eq refl)
      | inr ne ↦ elim (c.agrees x) [
        | same a ↦ same a
        | waiting a ↦ waiting (rw ne a)
        | being_set e k a ↦ absurd (cc (h, k))
        | was_lost a ↦ was_lost (rw ne a)
      ]
    ];
    held = none_held refl;
  }
  Step-Consistent (begin_set name d w f) c = record {
    agrees = λ x. elim (Bool-cases (text_eq x name)) [
      | inl eq ↦
          let here : x ≡ name = (text_eq_iff x name).0 eq in
          being_set d (ap (λ m. setting m d) (sym here)) (rw eq refl)
      | inr ne ↦ elim (c.agrees x) [
        | same a ↦ same (rw ne a)
        | waiting a ↦ waiting a
        | being_set e k a ↦ absurd (cc (f, k))
        | was_lost a ↦ was_lost a
      ]
    ];
    held = set_held name d refl (rw (text_eq_refl name) refl);
  }
  Step-Consistent (end_set name d w h) c = record {
    agrees = λ x. elim (Bool-cases (text_eq x name)) [
      | inl eq ↦
          let here : x ≡ name = (text_eq_iff x name).0 eq in
          same (inl (rw eq (ap w.rows here ∙ mutex_setting w name d c.held h)))
      | inr ne ↦ elim (c.agrees x) [
        | same a ↦ same (rw ne a)
        | waiting a ↦ waiting a
        | being_set e k a ↦
            let here : name ≡ x = cc (h, k) in
            absurd (cc (ne, subst (λ y. text_eq y name ≡ true) here (text_eq_refl name)))
        | was_lost a ↦ was_lost a
      ]
    ];
    held = none_held refl;
  }

module _ (clean : Text → Text) (plugin : Text → Option (List Text))
    (rows : List (Text × DomainConfig)) where
  Reach-Consistent :
      {w : World} → Reach clean plugin rows w → Consistent clean plugin (table_of rows) w
  Reach-Consistent at_boot = record {
    agrees = λ x. same (
        inr
          (refl, load-revalidated clean plugin rows new new.cfg (new-revalidated clean plugin) x));
    held = none_held refl;
  }
  Reach-Consistent (next r k) = Step-Consistent clean plugin (table_of rows) k (Reach-Consistent r)

-- In every interleaving of failure reports, rotations' persist phases and admin updates, from a boot on
-- any rows of the table: once nothing holds the mutex and no rotation of a tracker waits to be written,
-- and no rotation's row of the tracker failed to be written, then the tracker's row is its cached
-- configuration, or the row is equal to that of the boot and the cache has it as `Load` revalidates it,
-- without an active domain that is no longer known.
pub cache_written :
    (clean : Text → Text) (plugin : Text → Option (List Text)) (rows : List (Text × DomainConfig))
    {w : World}
    → Reach clean plugin rows w
    → (name : Text) → w.holder ≡ free
    → w.pending name ≡ 0
    → w.lost name ≡ false
    → Settled clean (plugin name) (table_of rows name) (w.rows name) (w.store.cfg name)
cache_written clean plugin rows r name f p l =
    elim ((Reach-Consistent clean plugin rows r).agrees name) [
      | same a ↦ a
      | waiting a ↦ absurd (omega (arith, a, p))
      | being_set d h a ↦ absurd (cc (f, h))
      | was_lost a ↦ absurd (cc (l, a))
    ]
