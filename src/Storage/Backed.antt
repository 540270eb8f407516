-- ===== src/Storage/Backed.antt =====
-- What a pass of the upload reconciler achieves.
use tr_engine.Common.{
  ◌+◌, ◌≤◌, ◌<◌, Bool, true, false, ◌||◌, Option, none, some, List, [], ◌∷◌, ◌≡◌, ◌⊎◌, inl, inr,
  refl, Text, arith, if_cases, ◌≢◌, ◌∙◌, subst, Bool-cases, ◌==◌, text_comparable,
}
use tr_engine.Common.Bytes.{text_same_iff}
use tr_engine.Storage.Tiered.{S3Store}
use tr_engine.Storage.Reconciler.{
  CachedFile, Reconciled, is_temp, object_of, each, counted_upload, upload, check, reconcile_file,
}

abbrev pub Each {ℓ κ} : {A : Type ℓ} → (A → Type κ) → List A → Type κ
Each P [] = Unit
Each P (x ∷ xs) = P x × Each P xs

pub Each-map {ℓ κ} :
    {A : Type ℓ} {P Q : A → Type κ} (xs : List A) → ((x : A) → P x → Q x) → Each P xs → Each Q xs
Each-map [] f h = tt
Each-map (x ∷ xs) f h = (f x h.0, Each-map xs f h.1)

module _ {ℓ} {S : Type ℓ} (s3 : S3Store S) where
  -- A write that S3 accepts is found; an object that a write brings, accepted or not, has the bytes
  -- that were written; and a write touches no other object.
  pub record Laws : Type ℓ where
    pub stored :
        (key content : Text) (remote : S)
        → (s3.put_object key content remote).1 ≡ true
        → s3.head_object key (s3.put_object key content remote).0 ≡ true
    pub whole :
        (key content : Text) (remote : S)
        → s3.head_object key remote ≡ false
        → s3.head_object key (s3.put_object key content remote).0 ≡ true
        → s3.get_object key (s3.put_object key content remote).0 ≡ some content
    pub apart :
        (key content other : Text) (remote : S)
        → key ≢ other
        → (s3.head_object other (s3.put_object key content remote).0 ≡ s3.head_object other remote)
          × (s3.get_object other (s3.put_object key content remote).0 ≡ s3.get_object other remote)

module _ {ℓ} {S : Type ℓ} (s3 : S3Store S) (read_file : Text → Option Text) where
  -- One object across some uploads: what was there is there with the same bytes, and what is new has
  -- the bytes of the file of its key.
  pub record Whole (key : Text) (before after : S) : Type 0 where
    pub keeps :
        s3.head_object key before ≡ true
        → (s3.head_object key after ≡ true) × (s3.get_object key after ≡ s3.get_object key before)
    pub brings :
        s3.head_object key before ≡ false
        → s3.head_object key after ≡ true
        → (content : Text) × (read_file key ≡ some content)
          × (s3.get_object key after ≡ some content)

  Whole-refl : (key : Text) (a : S) → Whole key a a
  Whole-refl key a = record { keeps = λ h. (h, refl); brings = λ h k. absurd (cc (h, k)) }

  Whole-trans : (key : Text) (a b c : S) → Whole key a b → Whole key b c → Whole key a c
  Whole-trans key a b c f g = record {
    keeps = λ h.
        let (there, same) = f.keeps h in
        let (there', same') = g.keeps there in (there', same' ∙ same);
    brings = λ h k. elim (Bool-cases (s3.head_object key b)) [
      | inl there ↦
          let (content, read, bytes) = f.brings h there in
          (content, read, (g.keeps there).1 ∙ bytes)
      | inr gone ↦ g.brings gone k
    ];
  }

  -- The objects are whole, and a failure stays counted.
  pub record Follows (r r' : Reconciled S) : Type 0 where
    pub whole : (key : Text) → Whole key r.remote r'.remote
    pub counts : r.failed ≤ r'.failed

  -- S3 has the key, or an upload failed.
  abbrev pub Backed : Reconciled S → Text → Type 0
  Backed r key = (s3.head_object key r.remote ≡ true) ⊎ (0 < r.failed)

  pub Follows-refl : (r : Reconciled S) → Follows r r
  Follows-refl r = record { whole = λ key. Whole-refl key r.remote; counts = omega arith }

  Follows-trans : (a b c : Reconciled S) → Follows a b → Follows b c → Follows a c
  Follows-trans a b c f g = record {
    whole = λ key. Whole-trans key a.remote b.remote c.remote (f.whole key) (g.whole key);
    counts = omega (arith, f.counts, g.counts);
  }

  pub Backed-Follows : (key : Text) (a b : Reconciled S) → Follows a b → Backed a key → Backed b key
  Backed-Follows key a b f (inl there) = inl ((f.whole key).keeps there).0
  Backed-Follows key a b f (inr counted) = inr (omega (arith, f.counts, counted))

  -- A loop whose step makes its element good, and undoes nothing, makes all of them good.
  module _ {A : Type 0} (Good : A → Reconciled S → Type 0) (step : A → Reconciled S → Reconciled S)
      (stable : (x : A) (a b : Reconciled S) → Follows a b → Good x a → Good x b)
      (follows : (x : A) (r : Reconciled S) → Follows r (step x r))
      (does : (x : A) (r : Reconciled S) → Good x (step x r)) where
    pub each-Follows : (xs : List A) (r : Reconciled S) → Follows r (each step xs r)
    unfolding each
    each-Follows [] r = Follows-refl r
    each-Follows (x ∷ xs) r = Follows-trans _ _ _ (follows x r) (each-Follows xs (step x r))

    pub each-Good : (xs : List A) (r : Reconciled S) → Each (λ x. Good x (each step xs r)) xs
    unfolding each
    each-Good [] r = tt
    each-Good (x ∷ xs) r =
        (stable x _ _ (each-Follows xs (step x r)) (does x r), each-Good xs (step x r))

  counted_upload-Follows :
      (put : S × Bool) (r : Reconciled S)
      → ((key : Text) → Whole key r.remote put.0)
      → Follows r (counted_upload s3 put r)
  counted_upload-Follows (remote, true) r k = record { whole = k; counts = omega arith }
  counted_upload-Follows (remote, false) r k = record { whole = k; counts = omega arith }

  counted_upload-Backed :
      (put : S × Bool) (key : Text) (r : Reconciled S)
      → (put.1 ≡ true → s3.head_object key put.0 ≡ true)
      → Backed (counted_upload s3 put r) key
  counted_upload-Backed (remote, true) key r k = inl (k refl)
  counted_upload-Backed (remote, false) key r k = inr (omega arith)

  -- A readable file of the cache that is no temporary file.
  abbrev pub FileIsBacked : Text → Text → CachedFile → Reconciled S → Type 0
  FileIsBacked sys date f r =
      f.is_dir ≡ false
      → is_temp f.name ≡ false
      → (content : Text) → read_file (object_of sys date f.name) ≡ some content
      → Backed r (object_of sys date f.name)

  module _ (laws : Laws s3) where
    put-Whole :
        (key content : Text) (remote : S) (k : Text)
        → s3.head_object key remote ≡ false
        → read_file key ≡ some content
        → Whole k remote (s3.put_object key content remote).0
    put-Whole key content remote k fresh read = elim (Bool-cases (key == k)) [
      | inl e ↦
          let same : key ≡ k = (text_same_iff key k).0 e in
          subst (λ x. Whole x remote (s3.put_object key content remote).0) same
            (record {
              keeps = λ h. absurd (cc (fresh, h));
              brings = λ h there. (content, read, laws.whole key content remote fresh there);
            })
      | inr e ↦
          let (there, bytes) =
            laws.apart key content k remote
              (λ same. absurd (cc (e, (text_same_iff key k).1 same))) in
          record { keeps = λ h. (there ∙ h, bytes); brings = λ h now. absurd (cc (there, h, now)) }
    ]

    upload-Follows :
        (key : Text) (content : Option Text) (r : Reconciled S)
        → s3.head_object key r.remote ≡ false
        → read_file key ≡ content
        → Follows r (upload s3 key content r)
    upload-Follows key none r fresh read = Follows-refl r
    upload-Follows key (some content) r fresh read =
        counted_upload-Follows (s3.put_object key content r.remote) r
          (λ k. put-Whole key content r.remote k fresh read)

    check-Follows : (key : Text) (r : Reconciled S) → Follows r (check s3 key (read_file key) r)
    check-Follows key r =
        if_cases (Follows r) (s3.head_object key r.remote) _ _ (λ h. Follows-refl r)
          (λ h. upload-Follows key (read_file key) r h refl)

    check-Backed :
        (key content : Text) (r : Reconciled S) → Backed (check s3 key (some content) r) key
    check-Backed key content r =
        if_cases (λ t. Backed t key) (s3.head_object key r.remote) _ _ (λ h. inl h)
          (λ h.
            counted_upload-Backed (s3.put_object key content r.remote) key r
              (laws.stored key content r.remote))

    pub reconcile_file-Follows :
        (sys date : Text) (f : CachedFile) (r : Reconciled S)
        → Follows r (reconcile_file s3 read_file sys date f r)
    unfolding reconcile_file
    reconcile_file-Follows sys date f r =
        if_cases (Follows r) (f.is_dir || is_temp f.name) _ _ (λ h. Follows-refl r)
          (λ h.
            let seen : Reconciled S = record r { checked = r.checked + 1 } in
            let next = check-Follows (object_of sys date f.name) seen in
            record { whole = next.whole; counts = next.counts })

    pub reconcile_file-FileIsBacked :
        (sys date : Text) (f : CachedFile) (r : Reconciled S)
        → FileIsBacked sys date f (reconcile_file s3 read_file sys date f r)
    unfolding reconcile_file
    reconcile_file-FileIsBacked sys date f r d t content c =
        let seen : Reconciled S = record r { checked = r.checked + 1 } in
        rw (d, t, c) (check-Backed (object_of sys date f.name) content seen)
