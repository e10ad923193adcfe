-- ===== src/L3Policy/Decision.antt =====
-- When the layer may run.
use oversight.Prelude.{
  [], ◌∷◌, ◌≡◌, ◌⊎◌, inl, inr, refl, Bool, true, false, not, Bytes, codes, beq, beq_iff, Bool-cases,
}
use oversight.L3Policy.{
  Signals, Document, classify_document, risky_classes, among, decision_of, decide_l3,
}

explicit :
    (off boilerplate full : Bool) (doc_class : Bytes)
    → (decision_of off boilerplate full true doc_class).enabled ≡ true
    → (boilerplate ≡ true) ⊎ (full ≡ true)
unfolding decision_of
explicit true boilerplate full c h = cc
explicit false true full c h = inl refl
explicit false false true c h = inr refl
explicit false false false c h = cc

acknowledged :
    (off boilerplate full risky : Bool) (doc_class : Bytes)
    → let r = decision_of off boilerplate full risky doc_class in
      (r.requires_ack ≡ r.enabled) × (beq r.mode (codes "off") ≡ not r.enabled)
unfolding decision_of
acknowledged true boilerplate full risky c = (refl, refl)
acknowledged false true full risky c = (refl, refl)
acknowledged false false true risky c = (refl, refl)
acknowledged false false false true c = (refl, refl)
acknowledged false false false false c = (refl, refl)

asked :
    (m : Bytes) (off : Bool) (c : Bytes) (risky : Bool)
    → let r = decision_of off (beq m (codes "boilerplate")) (beq m (codes "full")) risky c in
      (risky ≡ false) ⊎ ((r.enabled ≡ false) ⊎ ((m ≡ codes "boilerplate") ⊎ (m ≡ codes "full")))
asked m off c false = inl refl
asked m off c true =
    let boilerplate = beq m (codes "boilerplate") in
    let full = beq m (codes "full") in
    elim (Bool-cases (decision_of off boilerplate full true c).enabled) [
      | inr none ↦ inr (inl none)
      | inl on ↦ elim (explicit off boilerplate full c on) [
        | inl b ↦ inr (inr (inl ((beq_iff m (codes "boilerplate")).0 b)))
        | inr f ↦ inr (inr (inr ((beq_iff m (codes "full")).0 f)))
      ]
    ]

refused_off :
    (off boilerplate full risky : Bool) (doc_class : Bytes)
    → (off ≡ false) ⊎ ((decision_of off boilerplate full risky doc_class).enabled ≡ false)
unfolding decision_of
refused_off true boilerplate full risky c = inr refl
refused_off false boilerplate full risky c = inl refl

-- A document is marked only where its class is none of the seven whose wording is sensitive (legal,
-- regulatory, a technical specification, source code, SQL, a log, structured data), or where the
-- caller asked for it, in full or in the boilerplate. The layer is on for no document for which the
-- caller asked for `off`. Whatever the document and what is asked, the layer is off exactly where
-- the decision's mode says so, and a decision asks for an acknowledgement exactly where it marks.
pub decide_l3_explicit :
    (s : Signals) (d : Document) (requested_mode : Bytes)
    → let r = decide_l3 s d requested_mode in
      ((among (classify_document s d) (
            codes "legal"
            ∷ codes "regulatory"
            ∷ codes "technical_spec"
            ∷ codes "source_code"
            ∷ codes "sql"
            ∷ codes "log"
            ∷ codes "structured_data"
            ∷ [])
          ≡ false)
        ⊎ ((r.enabled ≡ false)
            ⊎ ((requested_mode ≡ codes "boilerplate") ⊎ (requested_mode ≡ codes "full"))))
      × ((beq requested_mode (codes "off") ≡ false) ⊎ (r.enabled ≡ false))
      × (r.requires_ack ≡ r.enabled)
      × (beq r.mode (codes "off") ≡ not r.enabled)
unfolding decide_l3
decide_l3_explicit s d m =
    let off = beq m (codes "off") in
    let boilerplate = beq m (codes "boilerplate") in
    let full = beq m (codes "full") in
    let c = classify_document s d in
    let (a, b) = acknowledged off boilerplate full (among c risky_classes) c in
    (
      asked m off c (among c risky_classes),
      refused_off off boilerplate full (among c risky_classes) c,
      a,
      b,
    )
