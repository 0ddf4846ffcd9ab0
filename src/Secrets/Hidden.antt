-- ===== src/Secrets/Hidden.antt =====
-- What `_redact` hides, and what it leaves.
use mastery.Prelude.{◌≡◌, refl, String, Bool, true, false, sym, ap, subst}
use mastery.Schema.{
  Json, text, array, object, null, boolean, number, Items, nil, cons, Fields, end, field,
}
use mastery.Secrets.{is_secret, hide, redact, redact_items, redact_fields}

module _ (lower : String → String) where
  -- Two values that differ at most in what stands under a secret key.
  mutual
    pub data Alike : Json → Json → Type 0 where
      equal : (v : Json) → Alike v v
      arrays : {xs ys : Items} → AlikeItems xs ys → Alike (array xs) (array ys)
      objects : {fs gs : Fields} → AlikeFields fs gs → Alike (object fs) (object gs)

    pub data AlikeItems : Items → Items → Type 0 where
      no_items : AlikeItems nil nil
      items :
          {v w : Json} {xs ys : Items}
          → Alike v w
          → AlikeItems xs ys
          → AlikeItems (cons v xs) (cons w ys)

    pub data AlikeFields : Fields → Fields → Type 0 where
      no_fields : AlikeFields end end
      hidden :
          (k : String) (v w : Json) {fs gs : Fields}
          → is_secret lower k ≡ true
          → AlikeFields fs gs
          → AlikeFields (field k v fs) (field k w gs)
      shown :
          (k : String) {v w : Json} {fs gs : Fields}
          → Alike v w
          → AlikeFields fs gs
          → AlikeFields (field k v fs) (field k w gs)

  fields_same :
      (k : String) {v w : Json} {fs gs : Fields} → v ≡ w → fs ≡ gs → field k v fs ≡ field k w gs
  fields_same k e es = cc (e, es)

  hide_secret :
      (k : String) (v w : Json)
      → is_secret lower k ≡ true
      → hide (is_secret lower k) v ≡ hide (is_secret lower k) w
  hide_secret k v w e = subst (λ b. hide b v ≡ hide b w) (sym e) refl

  mutual
    unfolding redact

    redact-Alike : {v w : Json} → Alike v w → redact lower v ≡ redact lower w
    redact-Alike (equal v) = refl
    redact-Alike (arrays h) = ap (λ xs. array xs) (redact_items-Alike h)
    redact-Alike (objects h) = ap (λ fs. object fs) (redact_fields-Alike h)

    redact_items-Alike :
        {xs ys : Items} → AlikeItems xs ys → redact_items lower xs ≡ redact_items lower ys
    redact_items-Alike no_items = refl
    redact_items-Alike (items h hs) = cc (redact-Alike h, redact_items-Alike hs)

    redact_fields-Alike :
        {fs gs : Fields} → AlikeFields fs gs → redact_fields lower fs ≡ redact_fields lower gs
    redact_fields-Alike no_fields = refl
    redact_fields-Alike (hidden k v w e hs) =
        fields_same k (hide_secret k (redact lower v) (redact lower w) e) (redact_fields-Alike hs)
    redact_fields-Alike (shown k h hs) =
        fields_same k (ap (λ x. hide (is_secret lower k) x) (redact-Alike h))
          (redact_fields-Alike hs)

  hide-Alike :
      (k : String) (v w : Json) (fs gs : Fields) (b : Bool)
      → is_secret lower k ≡ b
      → Alike v w
      → AlikeFields fs gs
      → AlikeFields (field k v fs) (field k (hide b w) gs)
  hide-Alike k v w fs gs true e h hs = hidden k v (text "****") e hs
  hide-Alike k v w fs gs false e h hs = shown k h hs

  mutual
    unfolding redact

    Alike-redact : (v : Json) → Alike v (redact lower v)
    Alike-redact (array xs) = arrays (Alike-redact_items xs)
    Alike-redact (object fs) = objects (Alike-redact_fields fs)
    Alike-redact null = equal null
    Alike-redact (boolean b) = equal (boolean b)
    Alike-redact (number sign n) = equal (number sign n)
    Alike-redact (text s) = equal (text s)

    Alike-redact_items : (xs : Items) → AlikeItems xs (redact_items lower xs)
    Alike-redact_items nil = no_items
    Alike-redact_items (cons v xs) = items (Alike-redact v) (Alike-redact_items xs)

    Alike-redact_fields : (fs : Fields) → AlikeFields fs (redact_fields lower fs)
    Alike-redact_fields end = no_fields
    Alike-redact_fields (field k v fs) =
        hide-Alike k v (redact lower v) fs (redact_fields lower fs) (is_secret lower k) refl
          (Alike-redact v) (Alike-redact_fields fs)

  -- Two values that differ at most under secret keys, at any depth, are redacted to the same; what
  -- `_redact` gives differs from its argument at most under secret keys; and redacting again changes
  -- nothing.
  pub redact-Hides :
      (v w : Json)
      → Alike v w
      → (redact lower v ≡ redact lower w)
        × (Alike v (redact lower v) × (redact lower (redact lower v) ≡ redact lower v))
  redact-Hides v w h = (redact-Alike h, (Alike-redact v, sym (redact-Alike (Alike-redact v))))
