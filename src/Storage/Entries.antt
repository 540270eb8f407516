-- ===== src/Storage/Entries.antt =====
-- The list of files that a pass goes over: sorted, and true of the disk.
use tr_engine.Common.{
  ◌≤◌, Bool, true, Option, none, some, List, [], ◌∷◌, ◌≡◌, ◌≢◌, ◌⊎◌, inl, inr, refl, sym, ◌∙◌, ap,
  ltb, Text, ◌==◌, text_comparable, arith, Bool-cases, if_cases, same_refl,
}
use tr_engine.Common.Map.{lookup, Unique, Absent, lookup-Absent}
use mathlib.Core.Option.{some-injective}
use tr_engine.Storage.Pruner.{File, Disk, FileEntry, entry_of, walk_dir, insert_entry, sort_entries}

abbrev pub Among : FileEntry → List FileEntry → Type 0
Among e [] = ⊥
Among e (x ∷ xs) = (x ≡ e) ⊎ Among e xs

-- Nothing in the list is older.
abbrev pub NoneOlder : FileEntry → List FileEntry → Type 0
NoneOlder e [] = Unit {0}
NoneOlder e (x ∷ xs) = (e.mod_time ≤ x.mod_time) × NoneOlder e xs

abbrev pub IsSorted : List FileEntry → Type 0
IsSorted [] = Unit {0}
IsSorted (x ∷ xs) = NoneOlder x xs × IsSorted xs

NoneOlder-trans :
    (a b : FileEntry) (xs : List FileEntry)
    → a.mod_time ≤ b.mod_time
    → NoneOlder b xs
    → NoneOlder a xs
NoneOlder-trans a b [] h o = tt
NoneOlder-trans a b (x ∷ xs) h o = (omega (arith, o.0), NoneOlder-trans a b xs h o.1)

pub NoneOlder-Among :
    (a e : FileEntry) (xs : List FileEntry) → NoneOlder a xs → Among e xs → a.mod_time ≤ e.mod_time
NoneOlder-Among a e [] o i = elim i [ ]
NoneOlder-Among a e (x ∷ xs) o (inl same) =
    let t = ap (λ y. y.mod_time) same in omega (arith, t, o.0)
NoneOlder-Among a e (x ∷ xs) o (inr i) = NoneOlder-Among a e xs o.1 i

insert-NoneOlder :
    (a e : FileEntry) (xs : List FileEntry)
    → a.mod_time ≤ e.mod_time
    → NoneOlder a xs
    → NoneOlder a (insert_entry e xs)
unfolding insert_entry
insert-NoneOlder a e [] h o = (h, tt)
insert-NoneOlder a e (x ∷ xs) h o =
    if_cases (NoneOlder a) (ltb x.mod_time e.mod_time) _ _
      (λ t. (o.0, insert-NoneOlder a e xs h o.1)) (λ t. (h, o))

insert-IsSorted : (e : FileEntry) (xs : List FileEntry) → IsSorted xs → IsSorted (insert_entry e xs)
unfolding insert_entry
insert-IsSorted e [] s = (tt, tt)
insert-IsSorted e (x ∷ xs) s =
    if_cases IsSorted (ltb x.mod_time e.mod_time) _ _
      (λ t. (insert-NoneOlder x e xs (ground (arith, t)) s.0, insert-IsSorted e xs s.1))
      (λ t.
        let le : e.mod_time ≤ x.mod_time = ground (arith, t) in
        ((le, NoneOlder-trans e x xs le s.0), s))

pub sort-IsSorted : (xs : List FileEntry) → IsSorted (sort_entries xs)
unfolding sort_entries
sort-IsSorted [] = tt
sort-IsSorted (x ∷ xs) = insert-IsSorted x (sort_entries xs) (sort-IsSorted xs)

insert-Among-here : (e : FileEntry) (xs : List FileEntry) → Among e (insert_entry e xs)
unfolding insert_entry
insert-Among-here e [] = inl refl
insert-Among-here e (x ∷ xs) =
    if_cases (Among e) (ltb x.mod_time e.mod_time) _ _ (λ t. inr (insert-Among-here e xs))
      (λ t. inl refl)

insert-Among-there :
    (e f : FileEntry) (xs : List FileEntry) → Among f xs → Among f (insert_entry e xs)
unfolding insert_entry
insert-Among-there e f [] i = elim i [ ]
insert-Among-there e f (x ∷ xs) i =
    if_cases (Among f) (ltb x.mod_time e.mod_time) _ _
      (λ t. elim i [ inl same ↦ inl same | inr j ↦ inr (insert-Among-there e f xs j) ]) (λ t. inr i)

pub sort-Among : (f : FileEntry) (xs : List FileEntry) → Among f xs → Among f (sort_entries xs)
unfolding sort_entries
sort-Among f [] i = elim i [ ]
sort-Among f (x ∷ xs) (inl same) = rw (sym same) (insert-Among-here x (sort_entries xs))
sort-Among f (x ∷ xs) (inr i) = insert-Among-there x f (sort_entries xs) (sort-Among f xs i)

-- The disk holds what each entry says.
abbrev pub Recorded : Disk → List FileEntry → Type 0
Recorded disk [] = Unit {0}
Recorded disk (x ∷ xs) =
    ((f : File) × (lookup x.key disk ≡ some f) × (x ≡ entry_of x.key f)) × Recorded disk xs

insert-Recorded :
    (disk : Disk) (e : FileEntry) (xs : List FileEntry)
    → Recorded disk (e ∷ xs)
    → Recorded disk (insert_entry e xs)
unfolding insert_entry
insert-Recorded disk e [] r = r
insert-Recorded disk e (x ∷ xs) r =
    if_cases (Recorded disk) (ltb x.mod_time e.mod_time) _ _
      (λ t. (r.1.0, insert-Recorded disk e xs (r.0, r.1.1))) (λ t. r)

pub sort-Recorded :
    (disk : Disk) (xs : List FileEntry) → Recorded disk xs → Recorded disk (sort_entries xs)
unfolding sort_entries
sort-Recorded disk [] r = tt
sort-Recorded disk (x ∷ xs) r =
    insert-Recorded disk x (sort_entries xs) (r.0, sort-Recorded disk xs r.1)

abbrev Extends : Disk → Disk → Type 0
Extends whole part = (k : Text) (f : File) → lookup k part ≡ some f → lookup k whole ≡ some f

pub none-some : {A : Type 0} {o : Option A} {a : A} → o ≡ none → o ≢ some a
none-some n s = ground (arith, n, s)

-- A file in front, under a key of its own, hides nothing.
cons-Extends :
    (key : Text) (f : File) (rest : Disk) → Absent key rest → Extends ((key, f) ∷ rest) rest
unfolding lookup
cons-Extends key f rest a k g l =
    if_cases (λ o. o ≡ some g) (key == k) _ _
      (λ e.
        let same : lookup key rest ≡ some g =
          ap (λ j. lookup j rest) ((text_comparable.same_iff key k).0 e) ∙ l in
        absurd (none-some (lookup-Absent key rest a) same))
      (λ e. l)

walk-Extends :
    (has_info : Text → Bool) (whole disk : Disk)
    → Unique disk
    → Extends whole disk
    → Recorded whole (walk_dir has_info disk)
unfolding walk_dir lookup
walk-Extends has_info whole [] u x = tt
walk-Extends has_info whole ((key, f) ∷ disk) u x =
    let rest =
      walk-Extends has_info whole disk u.1 (λ k g l. x k g (cons-Extends key f disk u.0 k g l)) in
    if_cases (Recorded whole) (has_info key) _ _
      (λ t. ((f, x key f (rw (same_refl key) refl), refl), rest)) (λ t. rest)

pub walk-Recorded :
    (has_info : Text → Bool) (disk : Disk) → Unique disk → Recorded disk (walk_dir has_info disk)
walk-Recorded has_info disk u = walk-Extends has_info disk disk u (λ k f l. l)

-- A file whose `d.Info` answers is in the list.
pub walk-Among :
    (has_info : Text → Bool) (key : Text) (f : File) (disk : Disk)
    → has_info key ≡ true
    → lookup key disk ≡ some f
    → Among (entry_of key f) (walk_dir has_info disk)
unfolding walk_dir lookup
walk-Among has_info key f [] h l = absurd (none-some refl l)
walk-Among has_info key f ((k, g) ∷ disk) h l = elim (Bool-cases (k == key)) [
  | inl e ↦
      let same = (text_comparable.same_iff k key).0 e in
      let held : g ≡ f = some-injective _ _ (rw e at l) in rw (same, held, h) (inl refl)
  | inr e ↦
      if_cases (Among (entry_of key f)) (has_info k) _ _
        (λ t. inr (walk-Among has_info key f disk h (rw e at l)))
        (λ t. walk-Among has_info key f disk h (rw e at l))
]
