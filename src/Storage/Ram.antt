-- ===== src/Storage/Ram.antt =====
-- A platform whose storage is an array in memory, with a random source that counts: it shows that
-- the contract of storage can hold. It models no code.
use hardware_bitcoin_wallet.Base.{
  ℕ, zero, suc, ◌+◌, ◌-◌, ◌≤◌, ◌<◌, ◌≡◌, ◌⊎◌, inl, inr, refl, sym, ◌∙◌, ap, arith, u8, List, [],
  ◌∷◌, ◌++◌, length, get_or, replicate, Bool, true, false, ltb, leb, if◌then◌else◌, IsBytes, le→leb,
  ge→ltb, lt→ltb,
}
use hardware_bitcoin_wallet.Program.{ok, err}
use hardware_bitcoin_wallet.Storage.{
  Partition, partition_global, partition_accounts, nv_invalid_address, Platform, IsMemory, Apart,
}

-- The byte at each address of each partition, and the number of samples taken.
pub record Ram : Type 0 where
  pub bytes : Partition → ℕ → ℕ
  pub samples : ℕ

pub ram_size : ℕ
ram_size = 1024

abbrev same_partition : Partition → Partition → Bool
same_partition partition_global partition_global = true
same_partition partition_accounts partition_accounts = true
same_partition _ _ = false

abbrev put : List ℕ → ℕ → (ℕ → ℕ) → ℕ → ℕ
put bs a old i =
    if ltb i a then old i else if ltb i (a + length bs) then get_or bs (i - a) 0 else old i

abbrev write_ram : List ℕ → Partition → ℕ → Ram → Ram
write_ram bs p a d = record d {
  bytes = λ q. if same_partition p q then put bs a (d.bytes q) else d.bytes q;
}

abbrev range : (ℕ → ℕ) → ℕ → ℕ → List ℕ
range f a zero = []
range f a (suc n) = u8 (f a) ∷ range f (a + 1) n

abbrev pub ram_platform : Platform Ram
ram_platform = record {
  non_volatile_get_size = λ p d. (ok 1024, d);
  non_volatile_write = λ bs p a d.
      if leb (a + length bs) 1024 then (ok tt, write_ram bs p a d) else (err nv_invalid_address, d);
  non_volatile_read = λ p a n d.
      if leb (a + n) 1024 then (ok (range (d.bytes p) a n), d) else (err nv_invalid_address, d);
  non_volatile_flush = λ d. (ok tt, d);
  most_samples = 8;
  hardware_random_32_bytes =
      λ d. (ok (64, u8 d.samples ∷ replicate 31 0), record d { samples = d.samples + 1 });
  write_backup_seed = λ seed is_encrypted destination d. (ok tt, d);
  get_pbkdf2_iterations = 1;
}

abbrev pub blank : Ram
blank = record { bytes = λ p i. 255; samples = 0 }

abbrev Holds : (ℕ → ℕ) → ℕ → List ℕ → Type 0
Holds f a [] = Unit
Holds f a (b ∷ bs) = (u8 (f a) ≡ b) × Holds f (a + 1) bs

moved : (f : ℕ → ℕ) (a b : ℕ) (cs : List ℕ) → a ≡ b → Holds f a cs → Holds f b cs
moved f a b cs e h = rw (sym e) h

pub Holds-joined :
    (f : ℕ → ℕ) (a : ℕ) (bs cs : List ℕ)
    → Holds f a bs
    → Holds f (a + length bs) cs
    → Holds f a (bs ++ cs)
Holds-joined f a [] cs h k = moved f _ _ cs (omega arith) k
Holds-joined f a (b ∷ bs) cs h k =
    (h.0, Holds-joined f (a + 1) bs cs h.1 (moved f _ _ cs (omega arith) k))

pub Holds-cut :
    (f : ℕ → ℕ) (a : ℕ) (bs cs : List ℕ)
    → Holds f a (bs ++ cs)
    → Holds f a bs × Holds f (a + length bs) cs
Holds-cut f a [] cs h = (tt, moved f _ _ cs (omega arith) h)
Holds-cut f a (b ∷ bs) cs h =
    let (near, far) = Holds-cut f (a + 1) bs cs h.1 in
    ((h.0, near), moved f _ _ cs (omega arith) far)

pub range-Holds : (f : ℕ → ℕ) (a n : ℕ) → Holds f a (range f a n)
range-Holds f a zero = tt
range-Holds f a (suc n) = (refl, range-Holds f (a + 1) n)

pub range-IsBytes : (f : ℕ → ℕ) (a n : ℕ) → IsBytes (range f a n)
range-IsBytes f a zero = tt
range-IsBytes f a (suc n) = (omega arith, range-IsBytes f (a + 1) n)

pub length-range : (f : ℕ → ℕ) (a n : ℕ) → length (range f a n) ≡ n
length-range f a zero = refl
length-range f a (suc n) = ap suc (length-range f (a + 1) n)

pub range-eq : (f : ℕ → ℕ) (a : ℕ) (bs : List ℕ) → Holds f a bs → range f a (length bs) ≡ bs
range-eq f a [] h = refl
range-eq f a (b ∷ bs) h = rw (h.0, range-eq f (a + 1) bs h.1) refl

-- Bytes that two contents share.
Holds-same :
    (f g : ℕ → ℕ) (a : ℕ) (bs : List ℕ)
    → ((i : ℕ) → a ≤ i → i < a + length bs → g i ≡ f i)
    → Holds f a bs
    → Holds g a bs
Holds-same f g a [] e h = tt
Holds-same f g a (b ∷ bs) e h = (
  ap u8 (e a (omega arith) (omega arith)) ∙ h.0,
  Holds-same f g (a + 1) bs (λ i p q. e i (omega arith) (omega arith)) h.1,
)

put_outside :
    (bs : List ℕ) (a : ℕ) (old : ℕ → ℕ) (i : ℕ)
    → (i < a) ⊎ (a + length bs ≤ i)
    → put bs a old i ≡ old i
put_outside bs a old i (inl lt) = rw (lt→ltb i a lt) refl
put_outside bs a old i (inr le) = rw (ge→ltb i a (omega arith), ge→ltb i (a + length bs) le) refl

put_inside :
    (bs : List ℕ) (a : ℕ) (old : ℕ → ℕ) (i : ℕ)
    → i < length bs
    → put bs a old (a + i) ≡ get_or bs i 0
put_inside bs a old i lt =
    let back : a + i - a ≡ i = omega arith in
    rw (ge→ltb (a + i) a (omega arith), lt→ltb (a + i) (a + length bs) (omega arith), back) refl

-- Contents that agree with a list from `a` on hold it.
Holds-list :
    (f : ℕ → ℕ) (a : ℕ) (bs : List ℕ)
    → IsBytes bs
    → ((i : ℕ) → i < length bs → f (a + i) ≡ get_or bs i 0)
    → Holds f a bs
Holds-list f a [] p e = tt
Holds-list f a (b ∷ bs) p e =
    let first : a ≡ a + 0 = omega arith in
    let here : f a ≡ b = ap f first ∙ e 0 (omega arith) in
    (
      omega (arith, here, p.0),
      Holds-list f (a + 1) bs p.1 (λ i lt.
          let next : a + 1 + i ≡ a + suc i = omega arith in ap f next ∙ e (suc i) (omega arith)),
    )

pub written :
    (d : Ram) (p : Partition) (a : ℕ) (bs : List ℕ)
    → IsBytes bs
    → Holds ((write_ram bs p a d).bytes p) a bs
written d partition_global a bs q =
    Holds-list _ a bs q (λ i lt. put_inside bs a (d.bytes partition_global) i lt)
written d partition_accounts a bs q =
    Holds-list _ a bs q (λ i lt. put_inside bs a (d.bytes partition_accounts) i lt)

outside_of : (a n b m i : ℕ) → (a + n ≤ b) ⊎ (b + m ≤ a) → b ≤ i → i < b + m → (i < a) ⊎ (a + n ≤ i)
outside_of a n b m i (inl le) p q = inr (omega arith)
outside_of a n b m i (inr le) p q = inl (omega arith)

kept_here :
    (f : ℕ → ℕ) (a : ℕ) (bs : List ℕ) (b : ℕ) (cs : List ℕ)
    → (a + length bs ≤ b) ⊎ (b + length cs ≤ a)
    → Holds f b cs
    → Holds (put bs a f) b cs
kept_here f a bs b cs apart h =
    Holds-same f (put bs a f) b cs
      (λ i p q. put_outside bs a f i (outside_of a (length bs) b (length cs) i apart p q)) h

pub kept :
    (d : Ram) (p : Partition) (a : ℕ) (bs : List ℕ) (q : Partition) (b : ℕ) (cs : List ℕ)
    → Apart p a (length bs) q b (length cs)
    → Holds (d.bytes q) b cs
    → Holds ((write_ram bs p a d).bytes q) b cs
kept d partition_global a bs partition_accounts b cs apart h = h
kept d partition_accounts a bs partition_global b cs apart h = h
kept d partition_global a bs partition_global b cs (inl ne) h = absurd (ne refl)
kept d partition_global a bs partition_global b cs (inr apart) h = kept_here _ a bs b cs apart h
kept d partition_accounts a bs partition_accounts b cs (inl ne) h = absurd (ne refl)
kept d partition_accounts a bs partition_accounts b cs (inr apart) h = kept_here _ a bs b cs apart h

unfoldable pub ram_memory : IsMemory ram_platform
ram_memory = record {
  Stores = λ d p a bs. Holds (d.bytes p) a bs;
  size = λ p. 1024;
  joined = λ d p a bs cs h k. Holds-joined (d.bytes p) a bs cs h k;
  cut = λ d p a bs cs h. Holds-cut (d.bytes p) a bs cs h;
  filled = λ d p a n room. (
    range (d.bytes p) a n,
    length-range (d.bytes p) a n,
    range-IsBytes (d.bytes p) a n,
    range-Holds (d.bytes p) a n,
  );
  read = λ d p a bs room h. rw (le→leb _ _ room, range-eq (d.bytes p) a bs h) refl;
  write = λ d p a bs room. (
    write_ram bs p a d,
    rw (le→leb _ _ room) refl,
    (λ bytes. written d p a bs bytes),
    λ q b cs apart h. kept d p a bs q b cs apart h,
  );
  measure = λ d p. refl;
  sample = λ d q b cs h. h;
  flush = λ d. (d, refl, λ q b cs h. h);
}
