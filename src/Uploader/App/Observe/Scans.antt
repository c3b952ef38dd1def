-- ===== src/Uploader/App/Observe/Scans.antt =====
-- What a scan of a watched directory (`scanDirectory` of uploader/proscan-windows/app.go) comes to.
use call_recorder.Prelude.{
  ℕ, ◌≡◌, refl, Bool, true, false, not, ◌&&◌, Option, none, some, ◌⊎◌, inl, inr, arith, Bool-cases,
  Option-cases, ap, sym, subst,
}
use call_recorder.Prelude.Text.{Text, text_eq, text_eq_refl}
use call_recorder.Prelude.Dict.{Dict, get, member, get-put}
use call_recorder.Uploader.Effects.{Exit, returned, refused, crashed, Exec, ◌>>◌, Plan}
use call_recorder.Uploader.Config.{WatchConfig, or_true}
use call_recorder.Uploader.Fingerprint.{FileInfo, source_fingerprint}
use call_recorder.Uploader.Spool.State.{Spool}
use call_recorder.Uploader.Spool.Methods.{remember}
use call_recorder.Uploader.Spool.Knows.{Remembers, remember-Remembers}
use call_recorder.Uploader.App.Paths.{normalize_path, is_supported_recording}
use call_recorder.Uploader.App.Observe.{
  ObservedFile, Watching, Entry, unreadable, file_at, directory_at, Entries, no_entries, then_entry,
  observe_at, in_spool, observe, add_watch, scan_file, scan_entry, scan_entries, scan_directory,
}

-- The file system's tree has this file where the scan comes to, below a directory that it enters.
unfoldable mutual
  Reaches : Bool → Text → FileInfo → Entry → Type 0
  Reaches r p i unreadable = ⊥
  Reaches r p i (file_at q j) = (q ≡ p) × (j ≡ some i)
  Reaches r p i (directory_at q es) = (r ≡ true) × ReachesIn r p i es

  pub ReachesIn : Bool → Text → FileInfo → Entries → Type 0
  ReachesIn r p i no_entries = ⊥
  ReachesIn r p i (then_entry e es) = Reaches r p i e ⊎ ReachesIn r p i es

-- What is observed stays observed, and what is known stays known.
abbrev Grows : Watching → Watching → Type 0
Grows a b =
    ((k : Text) → get b.observations k ≡ none → get a.observations k ≡ none)
    × ((f : Text) → member a.spool.known f ≡ true → member b.spool.known f ≡ true)

Grows-refl : (a : Watching) → Grows a a
Grows-refl a = (λ k h. h, λ f h. h)

Grows-trans : (a b c : Watching) → Grows a b → Grows b c → Grows a c
Grows-trans a b c g h = (λ k e. g.0 k (h.0 k e), λ f e. h.1 f (g.1 f e))

observe_at-none :
    (key path : Text) (watch : WatchConfig) (info : FileInfo) (now : ℕ) (m : Dict ObservedFile)
    (k : Text)
    → get (observe_at key path watch info now m) k ≡ none
    → (get m k ≡ none) × (text_eq key k ≡ false)
unfolding observe_at
observe_at-none key path watch info now m k h = elim (Option-cases (get m key)) [
  | inl new ↦ let h' = rw (new, observe_at, get-put) at h in ground arith
  | inr (o, old) ↦ let h' = rw (old, observe_at, get-put) at h in ground arith
]

module _ (separator : ℕ) (sha256 absolute : Text → Text) (add_ok : Text → Bool)
    (watch : WatchConfig) (now : ℕ) (plan : Text → Plan) (initial include_existing : Bool) where
  -- The fingerprint is known if the file is not observed.
  abbrev Sees : Text → FileInfo → Watching → Type 0
  Sees p i a =
      get a.observations (normalize_path absolute p) ≡ none
      → member a.spool.known (source_fingerprint sha256 absolute p i) ≡ true

  -- Where the walk returns, the recordings that it came to are seen.
  abbrev Covers : (Text → FileInfo → Type 0) → Watching → Exit (Unit {0}) × Watching → Type 0
  Covers R a (returned u, b) =
      Grows a b
      × ((p : Text) (i : FileInfo) → R p i → is_supported_recording separator p ≡ true → Sees p i b)
  Covers R a (_, b) = Grows a b

  then-Covers :
      (R S : Text → FileInfo → Type 0) (a : Watching) (r : Exit (Unit {0}) × Watching)
      (f : Exec Watching (Unit {0}))
      → Covers R a r
      → ((b : Watching) → Covers S b (f b))
      → Covers (λ p i. R p i ⊎ S p i) a (((λ (u : Watching). r) >> f) a)
  then-Covers R S a (returned u, b) f h k = both (f b) (k b)
    where
      both : (r : Exit (Unit {0}) × Watching) → Covers S b r → Covers (λ p i. R p i ⊎ S p i) a r
      both (returned v, c) s = (
        Grows-trans a b c h.0 s.0,
        λ p i e sup. elim e [
          | inl first ↦ λ free. s.0.1 _ (h.1 p i first sup (s.0.0 _ free))
          | inr later ↦ s.1 p i later sup
        ],
      )
      both (refused v, c) s = Grows-trans a b c h.0 s
      both (crashed, c) s = Grows-trans a b c h.0 s
  then-Covers R S a (refused e, b) f h k = h
  then-Covers R S a (crashed, b) f h k = h

  -- A walk that comes to fewer files.
  fewer-Covers :
      (R S : Text → FileInfo → Type 0) (a : Watching) (r : Exit (Unit {0}) × Watching)
      → ((p : Text) (i : FileInfo) → S p i → R p i)
      → Covers R a r
      → Covers S a r
  fewer-Covers R S a (returned u, b) f h = (h.0, λ p i s. h.1 p i (f p i s))
  fewer-Covers R S a (refused e, b) f h = h
  fewer-Covers R S a (crashed, b) f h = h

  in_spool-Covers :
      (q : Text) (j : FileInfo) (a : Watching) (r : Exit (Unit {0}) × Spool)
      → Remembers (source_fingerprint sha256 absolute q j) a.spool r
      → Covers (λ p i. (q ≡ p) × (j ≡ i)) a (r.0, record a { spool = r.1 })
  in_spool-Covers q j a (returned u, t) h =
      ((λ k e. e, h.0), λ p i e sup free. let known = h.1 in let same = e.0 in let info = e.1 in cc)
  in_spool-Covers q j a (refused e, t) h = (λ k e. e, h)
  in_spool-Covers q j a (crashed, t) h = (λ k e. e, h)

  observe-Covers :
      (q : Text) (j : FileInfo) (a : Watching)
      → Covers
          (λ p i. (q ≡ p) × (j ≡ i))
          a
          (returned tt, observe separator sha256 absolute add_ok q watch j now a)
  unfolding observe
  observe-Covers q j a =
      let key = normalize_path absolute q in
      (
        (λ k e. (observe_at-none key q watch j now a.observations k e).0, λ f h. h),
        λ p i e sup free.
            let missing =
              observe_at-none key q watch j now a.observations (normalize_path absolute p) free in
            let same = ap (λ x. text_eq key (normalize_path absolute x)) e.0 in
            absurd (cc (text_eq_refl key)),
      )

  -- The file's information behind a Some.
  some-Covers :
      (q : Text) (j : FileInfo) (a : Watching) (r : Exit (Unit {0}) × Watching)
      → Covers (λ p i. (q ≡ p) × (j ≡ i)) a r
      → Covers (λ p i. (q ≡ p) × (some j ≡ some i)) a r
  some-Covers q j a r h =
      fewer-Covers (λ p i. (q ≡ p) × (j ≡ i)) (λ p i. (q ≡ p) × (some j ≡ some i)) a r
        (λ p i e. let same = e.1 in (e.0, cc)) h

  scan_file-Covers :
      (q : Text) (j : Option FileInfo) (a : Watching)
      → Covers
          (λ p i. (q ≡ p) × (j ≡ some i))
          a
          (scan_file separator sha256 absolute add_ok watch now plan initial include_existing q j a)
  unfolding scan_file
  scan_file-Covers q none a = elim (Bool-cases (is_supported_recording separator q)) [
    | inr other ↦ rw (scan_file, other) (Grows-refl a, λ p i e sup. let gone = e.1 in absurd (cc))
    | inl sound ↦ rw (scan_file, sound) (Grows-refl a)
  ]
  scan_file-Covers q (some i) a = elim (Bool-cases (is_supported_recording separator q)) [
    | inr other ↦ rw (scan_file, other) (Grows-refl a, λ p i e sup. let path = e.0 in absurd (cc))
    | inl sound ↦ elim (Bool-cases (initial && not include_existing)) [
      | inl remembers ↦
          rw (scan_file, sound, remembers)
            (some-Covers q i a
              (in_spool (remember (plan q) now (source_fingerprint sha256 absolute q i) q) a)
              (in_spool-Covers q i a
                (remember (plan q) now (source_fingerprint sha256 absolute q i) q a.spool)
                (remember-Remembers (plan q) now (source_fingerprint sha256 absolute q i) q
                  a.spool)))
      | inr observes ↦
          rw (scan_file, sound, observes)
            (some-Covers q i a
              (returned tt, observe separator sha256 absolute add_ok q watch i now a)
              (observe-Covers q i a))
    ]
  ]

  add_watch-Covers :
      (path : Text) (a : Watching)
      → Covers (λ p i. ⊥) a (add_watch separator sha256 absolute add_ok path a)
  unfolding add_watch
  add_watch-Covers path a =
      elim (Bool-cases (member a.watched_dirs (normalize_path absolute path))) [
        | inl old ↦ rw (add_watch, old) (Grows-refl a, λ p i e. absurd e)
        | inr new ↦ elim (Bool-cases (add_ok path)) [
          | inl taken ↦ rw (add_watch, new, taken) (Grows-refl a, λ p i e. absurd e)
          | inr full ↦ rw (add_watch, new, full) (Grows-refl a)
        ]
      ]

  deep_entry :
      (q : Text) (es : Entries) (a : Watching)
      → or_true watch.recursive ≡ true
      → scan_entry separator sha256 absolute add_ok watch now plan initial include_existing
          (directory_at q es)
          a
        ≡ (add_watch separator sha256 absolute add_ok q
              >> scan_entries separator sha256 absolute add_ok watch now plan initial
                  include_existing es)
            a
  unfolding scan_entry
  deep_entry q es a deep = rw deep refl

  mutual
    unfolding Reaches scan_entry

    entry-Covers :
        (e : Entry) (a : Watching)
        → Covers
            (λ p i. Reaches (or_true watch.recursive) p i e)
            a
            (scan_entry separator sha256 absolute add_ok watch now plan initial include_existing e
              a)
    entry-Covers unreadable a = Grows-refl a
    entry-Covers (file_at q j) a = scan_file-Covers q j a
    entry-Covers (directory_at q es) a = elim (Bool-cases (or_true watch.recursive)) [
      | inr flat ↦ rw (scan_entry, flat) (Grows-refl a, λ p i e. absurd (cc))
      | inl deep ↦
          subst
            (Covers
              (λ p i. (or_true watch.recursive ≡ true) × ReachesIn (or_true watch.recursive) p i es)
              a)
            (sym (deep_entry q es a deep))
            (fewer-Covers (λ p i. ⊥ ⊎ ReachesIn (or_true watch.recursive) p i es) _ a _
              (λ p i e. inr e.1)
              (then-Covers (λ p i. ⊥) (λ p i. ReachesIn (or_true watch.recursive) p i es) a
                (add_watch separator sha256 absolute add_ok q a) _ (add_watch-Covers q a)
                λ b. entries-Covers es b))
    ]

    entries-Covers :
        (es : Entries) (a : Watching)
        → Covers
            (λ p i. ReachesIn (or_true watch.recursive) p i es)
            a
            (scan_entries separator sha256 absolute add_ok watch now plan initial include_existing
              es a)
    entries-Covers no_entries a = (Grows-refl a, λ p i e. absurd e)
    entries-Covers (then_entry e es) a =
        then-Covers _ _ a
          (scan_entry separator sha256 absolute add_ok watch now plan initial include_existing e a)
          _ (entry-Covers e a) (λ b. entries-Covers es b)

  -- The file is observed, or its fingerprint is known.
  abbrev pub IsSeen : Text → FileInfo → Watching → Type 0
  IsSeen p i a =
      ((o : ObservedFile) × (get a.observations (normalize_path absolute p) ≡ some o))
      ⊎ (member a.spool.known (source_fingerprint sha256 absolute p i) ≡ true)

  seen :
      (root : Text) (es : Entries) (a b : Watching) (p : Text) (i : FileInfo)
      → scan_directory separator sha256 absolute add_ok watch now plan initial include_existing
          (directory_at root es)
          a
        ≡ (returned tt, b)
      → ReachesIn (or_true watch.recursive) p i es
      → is_supported_recording separator p ≡ true
      → Sees p i b
  unfolding scan_directory
  seen root es a b p i ends place sound = elim (Bool-cases (or_true watch.recursive)) [
    | inr flat ↦
        (subst (Covers (λ p i. ReachesIn (or_true watch.recursive) p i es) a)
            (rw (flat, scan_directory) at ends) (entries-Covers es a)).1
          p i place sound
    | inl deep ↦
        (subst (Covers (λ p i. ⊥ ⊎ ReachesIn (or_true watch.recursive) p i es) a)
            (rw (deep, scan_directory) at ends)
            (then-Covers (λ p i. ⊥) (λ p i. ReachesIn (or_true watch.recursive) p i es) a
              (add_watch separator sha256 absolute add_ok root a) _ (add_watch-Covers root a)
              λ b. entries-Covers es b)).1
          p i (inr place) sound
  ]

  -- A scan of a watch's directory that returns has seen every recording that it came to: such a file
  -- is observed, or the spool knows its fingerprint.
  pub scan_directory-IsSeen :
      (root : Text) (es : Entries) (a b : Watching) (p : Text) (i : FileInfo)
      → scan_directory separator sha256 absolute add_ok watch now plan initial include_existing
          (directory_at root es)
          a
        ≡ (returned tt, b)
      → ReachesIn (or_true watch.recursive) p i es
      → is_supported_recording separator p ≡ true
      → IsSeen p i b
  scan_directory-IsSeen root es a b p i ends place sound =
      elim (Option-cases (get b.observations (normalize_path absolute p))) [
        | inr observed_there ↦ inl observed_there
        | inl free ↦ inr (seen root es a b p i ends place sound free)
      ]
