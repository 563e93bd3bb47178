-- ===== src/Properties/Config/Steps.antt =====
-- Triples on the steps of reading a configuration file.
use ibmiotf_cpp.Base.{
  ◌≡◌, refl, Bool, true, false, not, inl, inr, Bool-cases, Result, ok, err, arith, [], ℤ, pos,
}
use ibmiotf_cpp.Base.Exec.{Exec, continue, lift, modify, when, ◌>>=◌}
use ibmiotf_cpp.Json.{JsonLib}
use ibmiotf_cpp.Text.{Text, codes, text_eq, is_empty}
use ibmiotf_cpp.Text.Decimal.{stoi}
use ibmiotf_cpp.Properties.{Properties, is_quickstart}
use ibmiotf_cpp.Properties.Config.{member, store, required, read_domain, read_port, read_use_certs}

-- From properties with `P`, the method gives a value only with `R` of the value and the properties.
pub record Triple {A : Type 0} (P : Properties → Type 0) (m : Exec Properties A)
    (R : A → Properties → Type 0) : Type 0 where
  pub run : (p : Properties) → P p → (a : A) → (m p).0 ≡ ok a → R a (m p).1

-- `Q` holds if the flag is up.
abbrev pub Unless : (Properties → Type 0) → Bool → Properties → Type 0
Unless Q rc p = rc ≡ true → Q p

pub sequence :
    {A B : Type 0} (P : Properties → Type 0) (m : Exec Properties A) (k : A → Exec Properties B)
    (Q : A → Properties → Type 0) (R : B → Properties → Type 0)
    → Triple P m Q
    → ((a : A) → Triple (Q a) (k a) R)
    → Triple P (m >>= k) R
sequence {A} {B} P m k Q R t f = record { run = λ p h. go (m p) (t.run p h) }
  where
    go :
        (r : Result A × Properties)
        → ((a : A) → r.0 ≡ ok a → Q a r.1)
        → (b : B) → (continue r k).0 ≡ ok b
        → R b (continue r k).1
    go (ok a, p) h b i = (f a).run p (h a refl) b i
    go (err e, p) h b i = absurd (ground arith)

module _ (J : JsonLib) where
  pub member-keeps :
      (Q : Properties → Type 0) (root : JsonLib.Value J) (key fallback : Text)
      → Triple Q (member J root key fallback) (λ _. Q)
  unfolding member
  member-keeps Q root key fallback =
      sequence Q (lift (J.get root key (J.string fallback))) (λ v. lift (J.as_string v)) (λ _. Q)
        (λ _. Q) (record { run = λ p h a i. h }) (λ v. record { run = λ p h a i. h })

  store-Triple :
      (Q : Properties → Type 0) (g : Properties → Text) (setter : Text → Properties → Properties)
      → ((t : Text) (p : Properties) → Q p → Q (setter t p))
      → ((t : Text) (p : Properties) → g (setter t p) ≡ t)
      → (text : Text) (rc : Bool)
      → Triple (Unless Q rc) (store J setter text rc) (Unless (λ q. Q q × (is_empty (g q) ≡ false)))
  unfolding store
  store-Triple Q g setter keeps sets text rc = elim (Bool-cases (is_empty text)) [
    | inl e ↦ record { run = λ p h. rw e (λ b i up. absurd (ground arith)) }
    | inr e ↦ record {
      run = λ p h. rw e (λ b i up. (keeps text p (h (raised i up)), rw (sets text p) e));
    }
  ]
    where
      raised : {b : Bool} → ok rc ≡ ok b → b ≡ true → rc ≡ true
      raised i up = ground arith

  pub required-Triple :
      (Q : Properties → Type 0) (g : Properties → Text) (setter : Text → Properties → Properties)
      → ((t : Text) (p : Properties) → Q p → Q (setter t p))
      → ((t : Text) (p : Properties) → g (setter t p) ≡ t)
      → (root : JsonLib.Value J) (key : Text) (rc : Bool)
      → Triple
          (Unless Q rc)
          (required J root key setter rc)
          (Unless (λ q. Q q × (is_empty (g q) ≡ false)))
  unfolding required
  required-Triple Q g setter keeps sets root key rc =
      sequence (Unless Q rc) (member J root key []) (λ text. store J setter text rc)
        (λ _. Unless Q rc) (Unless (λ q. Q q × (is_empty (g q) ≡ false)))
        (member-keeps (Unless Q rc) root key [])
        (λ text. store-Triple Q g setter keeps sets text rc)

  pub org_id-Triple :
      (Q : Properties → Type 0)
      → ((t : Text) (p : Properties) → Q p → Q (record p { org_id = t }))
      → (org : Text)
      → Triple Q
          (store J (λ t p. record p { org_id = t }) org true)
          (Unless (λ q. Q q × (q.org_id ≡ org) × (is_empty q.org_id ≡ false)))
  unfolding store
  org_id-Triple Q keeps org = elim (Bool-cases (is_empty org)) [
    | inl e ↦ record { run = λ p h. rw e (λ b i up. absurd (ground arith)) }
    | inr e ↦ record { run = λ p h. rw e (λ b i up. (keeps org p h, refl, e)) }
  ]

  pub read_domain-Triple :
      (Q : Properties → Type 0)
      → ((t : Text) (p : Properties) → is_empty t ≡ false → Q p → Q (record p { domain = t }))
      → (root : JsonLib.Value J) (rc : Bool)
      → Triple (Unless Q rc) (read_domain J root) (λ _. Unless Q rc)
  unfolding read_domain
  read_domain-Triple Q keeps root rc =
      sequence (Unless Q rc) (member J root (codes "Domain") [])
        (λ domain. when (not (is_empty domain)) (modify (λ p. record p { domain = domain })))
        (λ _. Unless Q rc) (λ _. Unless Q rc) (member-keeps (Unless Q rc) root (codes "Domain") [])
        (λ domain. elim (Bool-cases (is_empty domain)) [
          | inl e ↦ record { run = λ p h. rw e (λ b i. h) }
          | inr e ↦ record { run = λ p h. rw e (λ b i up. keeps domain p e (h up)) }
        ])

  pub flag : {rc b : Bool} → ok rc ≡ ok b → b ≡ true → rc ≡ true
  flag i up = ground arith

  pub read_port-Triple :
      (Q : Properties → Type 0)
      → ((n : ℤ) (p : Properties) → Q p → Q (record p { port = n }))
      → (root : JsonLib.Value J) (rc : Bool) → Triple (Unless Q rc) (read_port J root rc) (Unless Q)
  unfolding read_port
  read_port-Triple Q keeps root rc =
      sequence (Unless Q rc) (member J root (codes "Port") (codes "8883")) _ (λ _. Unless Q rc)
        (Unless Q) (member-keeps (Unless Q rc) root (codes "Port") (codes "8883"))
        (λ custom_port. elim (Bool-cases (is_empty custom_port)) [
          | inl e ↦ record { run = λ p h. rw e (λ b i up. absurd (ground arith)) }
          | inr e ↦ record {
            run = λ p h. rw e (elim (Bool-cases (is_quickstart p.org_id)) [
              | inl q ↦ rw q (λ b i up. keeps (pos 1883) p (h (flag i up)))
              | inr q ↦ rw q (
                  (sequence (Unless Q rc) (lift (stoi custom_port)) _ (λ _. Unless Q rc) (Unless Q)
                      (record { run = λ p h n i. h })
                      (λ n. record { run = λ p h b i up. keeps n p (h (flag i up)) })).run
                    p h)
            ]);
          }
        ])

  pub read_use_certs-Triple :
      (Q : Properties → Type 0)
      → ((c : Bool) (p : Properties) → Q p → Q (record p { use_certs = c }))
      → (root : JsonLib.Value J) (rc : Bool)
      → Triple (Unless Q rc) (read_use_certs J root rc) (Unless Q)
  unfolding read_use_certs
  read_use_certs-Triple Q keeps root rc =
      sequence (Unless Q rc) (member J root (codes "useClientCertificates") (codes "false")) _
        (λ _. Unless Q rc) (Unless Q)
        (member-keeps (Unless Q rc) root (codes "useClientCertificates") (codes "false"))
        (λ use_certs. elim (Bool-cases (is_empty use_certs)) [
          | inl e ↦ record { run = λ p h. rw e (λ b i up. absurd (ground arith)) }
          | inr e ↦ record {
            run =
                λ p h. rw e (λ b i up. keeps (text_eq use_certs (codes "true")) p (h (flag i up)));
          }
        ])
