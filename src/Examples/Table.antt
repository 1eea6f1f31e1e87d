-- ===== src/Examples/Table.antt =====
-- The cluster in memory keeps a table of backups.
use kopia_operator.Prelude.{
  ◌≡◌, ◌≢◌, ◌↔◌, refl, sym, ap, ◌∙◌, Bool, true, false, not, Option, none, some, List, [], ◌∷◌,
  ◌++◌, eq_iff, arith, inl, inr, ◌⊎◌, Bool-cases, Option-cases,
}
use kopia_operator.Prelude.Lists.{find, filter}
use kopia_operator.Error.{Error, is_already_exists}
use kopia_operator.Exec.{ok, err}
use kopia_operator.Kube.Meta.{Key, ObjectMeta}
use kopia_operator.Api.Backup.{Backup, defaulted}
use kopia_operator.Platform.Memory.{Cluster, memory, is_at}
use kopia_operator.PvcWatcher.{key_of}
use kopia_operator.PvcWatcher.Store.{IsBackupStore, SameSpec}

module _ {A : Type 0} where
  find_holds : (p : A → Bool) (xs : List A) (x : A) → find p xs ≡ some x → p x ≡ true
  find_holds p [] x h = cc
  find_holds p (y ∷ xs) x h = ground (arith, find_holds p xs x)

  find-append_none :
      (p : A → Bool) (xs : List A) (y : A)
      → find p xs ≡ none
      → p y ≡ true
      → find p (xs ++ y ∷ []) ≡ some y
  find-append_none p [] y h holds = rw holds
  find-append_none p (x ∷ xs) y h holds = ground (arith, find-append_none p xs y)

  find-append_other :
      (p : A → Bool) (xs : List A) (y : A) → p y ≡ false → find p (xs ++ y ∷ []) ≡ find p xs
  find-append_other p [] y h = rw h
  find-append_other p (x ∷ xs) y h = ground (arith, find-append_other p xs y)

  find-filter_self : (p : A → Bool) (xs : List A) → find p (filter (λ x. not (p x)) xs) ≡ none
  find-filter_self p [] = refl
  find-filter_self p (x ∷ xs) = elim (Bool-cases (p x)) [
    | inl h ↦ rw h (find-filter_self p xs)
    | inr h ↦ rw (h, h) (find-filter_self p xs)
  ]

  find-filter_other :
      (p q : A → Bool) (xs : List A)
      → ((x : A) → q x ≡ true → p x ≡ false)
      → find q (filter (λ x. not (p x)) xs) ≡ find q xs
  find-filter_other p q [] apart = refl
  find-filter_other p q (x ∷ xs) apart = ground (arith, apart x, find-filter_other p q xs apart)

is_at_iff : (k : Key) (m : ObjectMeta) → (is_at k m ≡ true) ↔ (key_of m ≡ k)
is_at_iff k m = ground (arith, eq_iff m.name k.name, eq_iff m.namespace k.namespace)

not_at : (k : Key) (m : ObjectMeta) → k ≢ key_of m → is_at k m ≡ false
not_at k m ne = elim (Bool-cases (is_at k m)) [
  | inl h ↦ absurd (ne (sym ((is_at_iff k m).0 h)))
  | inr h ↦ h
]

-- The test that finds an entry.
abbrev entry : Key → Backup → Bool
entry k b = is_at k b.metadata

entry_self : (b : Backup) → entry (key_of b.metadata) b ≡ true
entry_self b = (is_at_iff (key_of b.metadata) b.metadata).1 refl

entry_apart : (j k : Key) (x : Backup) → j ≢ k → entry j x ≡ true → entry k x ≡ false
entry_apart j k x ne h =
    not_at k x.metadata λ same. ne (sym ((is_at_iff j x.metadata).0 h) ∙ sym same)

abbrev stored : Cluster → Key → Option Backup
stored s k = find (entry k) s.backups

Stored-cases :
    (s : Cluster) (k : Key) → (stored s k ≡ none) ⊎ ((c : Backup) × (stored s k ≡ some c))
Stored-cases s k = Option-cases (stored s k)

-- What `replace` leaves.
replaced : Cluster → Backup → List Backup
replaced s b = filter (λ x. not (entry (key_of b.metadata) x)) s.backups ++ b ∷ []

find-replaced_self :
    (s : Cluster) (b : Backup) → find (entry (key_of b.metadata)) (replaced s b) ≡ some b
unfolding replaced
find-replaced_self s b =
    find-append_none (entry (key_of b.metadata)) _ b
      (find-filter_self (entry (key_of b.metadata)) s.backups) (entry_self b)

find-replaced_other :
    (s : Cluster) (b : Backup) (j : Key)
    → j ≢ key_of b.metadata
    → find (entry j) (replaced s b) ≡ stored s j
unfolding replaced
find-replaced_other s b j ne =
    find-append_other (entry j) _ b (not_at j b.metadata ne)
    ∙ find-filter_other (entry (key_of b.metadata)) (entry j) s.backups
        (λ x. entry_apart j (key_of b.metadata) x ne)

get_ok :
    (k : Key) (s : Cluster) (b : Backup)
    → (memory.backups.get k s).0 ≡ ok b
    → (stored s k ≡ some b) × (key_of b.metadata ≡ k)
get_ok k s b = elim (Stored-cases s k) [
  | inl e ↦ rw e (λ h. absurd (ground arith))
  | inr (c, e) ↦ λ answer.
      let found : stored s k ≡ some b = ground arith in
      (found, (is_at_iff k b.metadata).0 (find_holds (entry k) s.backups b found))
]

create_ok :
    (b b' : Backup) (s : Cluster)
    → (memory.backups.create b s).0 ≡ ok b'
    → (key_of b'.metadata ≡ key_of b.metadata)
      × SameSpec b'.spec b.spec
      × (stored (memory.backups.create b s).1 (key_of b.metadata) ≡ some b')
create_ok b b' s = elim (Stored-cases s (key_of b.metadata)) [
  | inl e ↦ rw e λ answer.
      let same : b ≡ b' = cc in
      (
        ap (λ x. key_of x.metadata) (sym same),
        ap (λ x. defaulted x.spec) (sym same),
        find-append_none (entry (key_of b.metadata)) s.backups b e (entry_self b) ∙ ap some same,
      )
  | inr (c, e) ↦ rw e (λ answer. absurd (ground arith))
]

create_others :
    (b : Backup) (s : Cluster) (j : Key)
    → j ≢ key_of b.metadata
    → stored (memory.backups.create b s).1 j ≡ stored s j
create_others b s j ne = elim (Stored-cases s (key_of b.metadata)) [
  | inl e ↦ rw e (find-append_other (entry j) s.backups b (not_at j b.metadata ne))
  | inr (c, e) ↦ rw e
]

-- Update and the update of the status both replace the object.
update_ok :
    (b c b' : Backup) (s : Cluster)
    → stored s (key_of b.metadata) ≡ some c
    → (memory.backups.update b s).0 ≡ ok b'
    → (b' ≡ b) × (stored (memory.backups.update b s).1 (key_of b.metadata) ≡ some b')
unfolding replaced
update_ok b c b' s e =
    rw e λ answer. let same : b ≡ b' = cc in (sym same, find-replaced_self s b ∙ ap some same)

update_others :
    (b : Backup) (s : Cluster) (j : Key)
    → j ≢ key_of b.metadata
    → stored (memory.backups.update b s).1 j ≡ stored s j
unfolding replaced
update_others b s j ne = elim (Stored-cases s (key_of b.metadata)) [
  | inl e ↦ rw e
  | inr (c, e) ↦ rw e (find-replaced_other s b j ne)
]

create_exists :
    (b : Backup) (s : Cluster) (e : Error)
    → (memory.backups.create b s).0 ≡ err e
    → is_already_exists e ≡ true
    → (stored s (key_of b.metadata) ≢ none)
      × (stored (memory.backups.create b s).1 (key_of b.metadata) ≡ stored s (key_of b.metadata))
create_exists b s e = elim (Stored-cases s (key_of b.metadata)) [
  | inl h ↦ rw h (λ answer exists. absurd (ground arith))
  | inr (c, h) ↦ rw h (λ answer exists. (λ same. cc, h))
]

-- What `drop` leaves.
stored-delete_self :
    (b : Backup) (s : Cluster) → stored (memory.backups.delete b s).1 (key_of b.metadata) ≡ none
stored-delete_self b s = elim (Stored-cases s (key_of b.metadata)) [
  | inl h ↦ rw (h, h)
  | inr (c, h) ↦ rw h (find-filter_self (entry (key_of b.metadata)) s.backups)
]

delete_others :
    (b : Backup) (s : Cluster) (j : Key)
    → j ≢ key_of b.metadata
    → stored (memory.backups.delete b s).1 j ≡ stored s j
delete_others b s j ne = elim (Stored-cases s (key_of b.metadata)) [
  | inl h ↦ rw h
  | inr (c, h) ↦ rw h (
      find-filter_other (entry (key_of b.metadata)) (entry j) s.backups
        (λ x. entry_apart j (key_of b.metadata) x ne))
]

repositories_kept :
    (b : Backup) (s : Cluster) → (memory.backups.update_status b s).1.repositories ≡ s.repositories
repositories_kept b s = elim (Stored-cases s (key_of b.metadata)) [
  | inl h ↦ rw h
  | inr (c, h) ↦ rw h
]

pub memory-IsBackupStore : IsBackupStore memory
memory-IsBackupStore = record {
  stored = stored;
  pvc_read = λ k s. refl;
  backup_read = λ k s. refl;
  repository_read = λ k s. refl;
  repositories_read = λ s. refl;
  get_ok = get_ok;
  create_ok = create_ok;
  create_exists = create_exists;
  update_ok = λ b c b' s there same answer.
      let (e, now) = update_ok b c b' s there answer in
      (ap (λ x. defaulted x.spec) e, ap (λ x. x.status) e, now);
  update_status_ok = λ b c b' s there same answer.
      let (e, now) = update_ok b c b' s there answer in
      (ap (λ x. key_of x.metadata) e, ap (λ x. defaulted x.spec) e, ap (λ x. x.status) e, now);
  delete_ok = λ b s u answer. rw (stored-delete_self b s) tt;
  delete_missing = λ b s e answer gone. stored-delete_self b s;
  create_others = create_others;
  update_others = update_others;
  update_status_others = update_others;
  delete_others = delete_others;
  get_kept = λ b k s. rw (repositories_kept b s);
  list_kept = λ b s. rw (repositories_kept b s);
  owned_key = λ kind owner m m' e. ground arith;
}
