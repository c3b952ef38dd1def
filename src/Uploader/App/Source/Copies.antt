-- ===== src/Uploader/App/Source/Copies.antt =====
-- What `copyUploadedSource` of uploader/proscan-windows/app.go leaves in the directory of completed recordings.
use call_recorder.Prelude.{
  ℕ, ◌≡◌, ◌≢◌, refl, ap, Bool, true, false, none, some, [], ◌++◌, inl, inr, arith, Bool-cases,
  Option-cases, if◌then◌else◌, length, length-append, ltb, take,
}
use call_recorder.Prelude.Text.{Text, text_eq, text_eq_iff, text_eq_refl, codes}
use call_recorder.Prelude.Dict.{get, put, has, remove, get-put, get-remove}
use call_recorder.Prelude.Dict.Distinct.{get_of_not_has}
use call_recorder.Uploader.Effects.{
  Outcome, done, failed, torn, crash, torn_crash, Exit, returned, refused, crashed, Exec, ◌>>◌,
  attempt,
}
use call_recorder.Uploader.Spool.Disk.{SpoolItem}
use call_recorder.Uploader.App.Paths.{base}
use call_recorder.Uploader.App.Source.{
  Files, make_completed, stat_wanted, stat_other, lstat, compare_wanted, compare_other, open_source,
  create_partial, copy_partial, sync_partial, close_partial, rename_partial, remove_partial,
  CopyPlan, is_done, other_name, partial_name, rename_file, with_cleanup, fill_partial, create_copy,
  with_slice, same_digest, copy_to, copy_beside, copy_wanted, copy_uploaded_source,
}

-- Every file of `a` is there in `b` with its content.
abbrev pub Keeps : Files → Files → Type 0
Keeps a b = (k c : Text) → get a k ≡ some c → get b k ≡ some c

-- What holds of the name and the files where the method returns; else all files are kept.
abbrev pub Ends : (Text → Files → Type 0) → Files → Exit Text × Files → Type 0
Ends Q a (returned name, b) = Q name b
Ends Q a (_, b) = Keeps a b

-- Under the name stands a file whose content is as it should be.
abbrev pub Holds : (Text → Type 0) → Files → Text → Files → Type 0
Holds Good a name b = Keeps a b × ((c : Text) × (get b name ≡ some c) × Good c)

try-Ends :
    (Q : Text → Files → Type 0) (a : Files) (o : Outcome) (whole part : Files → Files) (t : Files)
    (n : Exec Files Text)
    → Keeps a t
    → Keeps a (part t)
    → Ends Q a (n (whole t))
    → Ends Q a ((attempt o whole part >> n) t)
unfolding attempt
try-Ends Q a done whole part t n h p w = w
try-Ends Q a failed whole part t n h p w = h
try-Ends Q a torn whole part t n h p w = p
try-Ends Q a crash whole part t n h p w = h
try-Ends Q a torn_crash whole part t n h p w = p

-- The files of `a`, and at most the partial file besides.
abbrev IsPartial : Text → Files → Files → Type 0
IsPartial temporary a b = (k : Text) → text_eq temporary k ≡ false → get b k ≡ get a k

put-IsPartial :
    (temporary bytes : Text) (a b : Files)
    → IsPartial temporary a b
    → IsPartial temporary a (put b temporary bytes)
put-IsPartial temporary bytes a b h k e = rw (get-put, e) (h k e)

remove-IsPartial :
    (temporary : Text) (a b : Files)
    → IsPartial temporary a b
    → IsPartial temporary a (remove b temporary)
remove-IsPartial temporary a b h k e = rw (get-remove, e) (h k e)

-- The partial file's name is free in `a`.
IsPartial-Keeps :
    (temporary : Text) (a b : Files) → get a temporary ≡ none → IsPartial temporary a b → Keeps a b
IsPartial-Keeps temporary a b free h k c e = elim (Bool-cases (text_eq temporary k)) [
  | inl same ↦ let this = ap (get a) ((text_eq_iff temporary k).0 same) in absurd (cc)
  | inr other ↦ rw (h k other) e
]

module _ (plan : CopyPlan) (temporary destination audio : Text) (a : Files)
    (free : get a temporary ≡ none) (new : get a destination ≡ none)
    (apart : text_eq temporary destination ≡ false) where
  -- The copy is complete, under its own name.
  abbrev Filled : Text → Files → Type 0
  Filled name b = (name ≡ destination) × Keeps a b × (get b destination ≡ some audio)

  rename-Filled :
      (t : Files)
      → IsPartial temporary a t
      → get t temporary ≡ some audio
      → Filled destination (rename_file temporary destination t)
  unfolding rename_file
  rename-Filled t h full =
      rw (full, rename_file)
        (
          refl,
          λ k c e. elim (Bool-cases (text_eq destination k)) [
            | inl same ↦ let this = ap (get a) ((text_eq_iff destination k).0 same) in absurd (cc)
            | inr other ↦
                rw (get-put, other)
                  (IsPartial-Keeps temporary a (remove t temporary) free
                    (remove-IsPartial temporary a t h) k c e)
          ],
          rw (get-put, text_eq_refl) refl,
        )

  fill-Filled :
      (t : Files)
      → IsPartial temporary a t
      → Ends Filled a (fill_partial plan temporary destination audio t)
  unfolding fill_partial
  fill-Filled t h =
      let keeps =
        λ (u : Files) (p : IsPartial temporary a u). IsPartial-Keeps temporary a u free p in
      let full = put-IsPartial temporary audio a t h in
      let whole = keeps (put t temporary audio) full in
      try-Ends Filled a (plan copy_partial) _ _ t _ (keeps t h)
        (keeps (put t temporary []) (put-IsPartial temporary [] a t h))
        (try-Ends Filled a (plan sync_partial) _ _ (put t temporary audio) _ whole whole (
          try-Ends Filled a (plan close_partial) _ _ (put t temporary audio) _ whole whole (
            try-Ends Filled a (plan rename_partial) _ _ (put t temporary audio) _ whole whole
              (rename-Filled (put t temporary audio) full (rw (get-put, text_eq_refl) refl)))))

  -- The removal takes no file of `a`.
  clean-Keeps : (t : Files) (b : Bool) → Keeps a t → Keeps a (if b then remove t temporary else t)
  clean-Keeps t false h = h
  clean-Keeps t true h = λ k c e. elim (Bool-cases (text_eq temporary k)) [
    | inl same ↦ let this = ap (get a) ((text_eq_iff temporary k).0 same) in absurd (cc)
    | inr other ↦ rw (get-remove, other) (h k c e)
  ]

  clean_get :
      (t : Files) (b : Bool)
      → get t destination ≡ some audio
      → get (if b then remove t temporary else t) destination ≡ some audio
  clean_get t false h = h
  clean_get t true h = rw (get-remove, apart) h

  clean-Holds :
      (r : Exit Text × Files)
      → Ends Filled a r
      → Ends (Holds (λ c. c ≡ audio) a) a (with_cleanup plan temporary r)
  unfolding with_cleanup
  clean-Holds (returned name, t) h = (
    clean-Keeps t (is_done (plan remove_partial)) h.1,
    (audio, rw (h.0) (clean_get t (is_done (plan remove_partial)) h.2), refl),
  )
  clean-Holds (refused e, t) h = clean-Keeps t (is_done (plan remove_partial)) h
  clean-Holds (crashed, t) h = h

  create-Holds :
      has a temporary ≡ false
      → Ends (Holds (λ c. c ≡ audio) a) a (create_copy plan temporary destination audio a)
  unfolding create_copy
  create-Holds none_there =
      rw (create_copy, none_there)
        (try-Ends (Holds (λ c. c ≡ audio) a) a (plan create_partial) _ _ a _ (λ k c e. e)
          (λ k c e. e)
          (clean-Holds (fill_partial plan temporary destination audio (put a temporary []))
            (fill-Filled (put a temporary []) (put-IsPartial temporary [] a a (λ k e. refl)))))

weaker-Ends :
    (Q R : Text → Files → Type 0) (a : Files) (r : Exit Text × Files)
    → ((name : Text) (b : Files) → Q name b → R name b)
    → Ends Q a r
    → Ends R a r
weaker-Ends Q R a (returned name, b) f h = f name b h
weaker-Ends Q R a (refused e, b) f h = h
weaker-Ends Q R a (crashed, b) f h = h

-- The partial file has a longer name.
partial_apart :
    (short destination : Text) → text_eq (partial_name short destination) destination ≡ false
unfolding partial_name
partial_apart short destination =
    elim (Bool-cases (text_eq (partial_name short destination) destination)) [
      | inr other ↦ other
      | inl same ↦
          let sizes =
            ap length ((text_eq_iff (partial_name short destination) destination).0 same) in
          let whole = length-append destination (codes ".partial-" ++ short) in
          absurd (ground arith)
    ]

module _ (separator : ℕ) (sha256 : Text → Text) (plan : CopyPlan) (audio : Text) where
  -- The content has the digest of the spooled audio.
  abbrev pub IsSame : Text → Type 0
  IsSame c = sha256 c ≡ sha256 audio

  create_copy-Holds :
      (temporary destination : Text) (a : Files)
      → get a destination ≡ none
      → text_eq temporary destination ≡ false
      → Ends (Holds IsSame a) a (create_copy plan temporary destination audio a)
  unfolding create_copy
  create_copy-Holds temporary destination a new apart = elim (Bool-cases (has a temporary)) [
    | inl taken ↦ rw (create_copy, taken) (λ k c e. e)
    | inr free ↦
        weaker-Ends (Holds (λ c. c ≡ audio) a) (Holds IsSame a) a
          (create_copy plan temporary destination audio a)
          (λ name b h. (h.0, (h.1.0, h.1.1, ap sha256 h.1.2)))
          (create-Holds plan temporary destination audio a (get_of_not_has a temporary free) new
            apart free)
  ]

  copy_to-Holds :
      (id destination : Text) (a : Files)
      → get a destination ≡ none
      → Ends (Holds IsSame a) a (copy_to separator sha256 plan (some audio) id destination a)
  unfolding copy_to with_slice partial_name
  copy_to-Holds id destination a new =
      try-Ends (Holds IsSame a) a (plan open_source) _ _ a _ (λ k c e. e) (λ k c e. e)
        (elim (Bool-cases (ltb (length id) 12)) [
          | inl short ↦ rw (with_slice, short) (λ k c e. e)
          | inr long ↦
              rw (with_slice, long)
                (create_copy-Holds (partial_name (take 12 id) destination) destination a new
                  (partial_apart (take 12 id) destination))
        ])

  -- A file that is there already is taken for the copy if its digest is that of the spooled audio.
  there-Holds :
      (o : Outcome) (name c : Text) (a : Files)
      → get a name ≡ some c
      → same_digest separator sha256 plan (some audio) o c ≡ true
      → Holds IsSame a name a
  unfolding same_digest
  there-Holds o name c a here same =
      (λ k e h. h, (c, here, (text_eq_iff (sha256 c) (sha256 audio)).0 (ground arith)))

  -- What os.Lstat finds where it does not fail.
  lstat_done :
      (o : Outcome) (name : Text) (a : Files) → is_done o ≡ true → lstat o name a ≡ get a name
  unfolding lstat
  lstat_done o name a h = rw h refl

  lstat_free : (o : Outcome) (name : Text) (a : Files) → get a name ≡ none → lstat o name a ≡ none
  unfolding lstat
  lstat_free o name a new = ground arith

  copy_beside-Holds :
      (id other : Text) (a : Files)
      → is_done (plan stat_other) ≡ true
      → Ends (Holds IsSame a) a (copy_beside separator sha256 plan (some audio) id other a)
  unfolding copy_beside
  copy_beside-Holds id other a looks = elim (Option-cases (get a other)) [
    | inl new ↦
        rw (copy_beside, lstat_done (plan stat_other) other a looks, new)
          (copy_to-Holds id other a new)
    | inr (c, here) ↦
        elim (Bool-cases (same_digest separator sha256 plan (some audio) (plan compare_other) c)) [
          | inl same ↦
              rw (copy_beside, lstat_done (plan stat_other) other a looks, here, same)
                (there-Holds (plan compare_other) other c a here same)
          | inr different ↦
              rw (copy_beside, lstat_done (plan stat_other) other a looks, here, different)
                (λ k e h. h)
        ]
  ]

  copy_wanted-Holds :
      (id wanted : Text) (a : Files)
      → is_done (plan stat_wanted) ≡ true
      → is_done (plan stat_other) ≡ true
      → Ends (Holds IsSame a) a (copy_wanted separator sha256 plan (some audio) id wanted a)
  unfolding copy_wanted with_slice
  copy_wanted-Holds id wanted a looks looks_again = elim (Option-cases (get a wanted)) [
    | inl new ↦
        rw (copy_wanted, lstat_done (plan stat_wanted) wanted a looks, new)
          (copy_to-Holds id wanted a new)
    | inr (c, here) ↦
        elim (Bool-cases (same_digest separator sha256 plan (some audio) (plan compare_wanted) c)) [
          | inl same ↦
              rw (copy_wanted, lstat_done (plan stat_wanted) wanted a looks, here, same)
                (there-Holds (plan compare_wanted) wanted c a here same)
          | inr different ↦ elim (Bool-cases (ltb (length id) 12)) [
            | inl short ↦
                rw
                  (
                    copy_wanted,
                    lstat_done (plan stat_wanted) wanted a looks,
                    here,
                    different,
                    with_slice,
                    short,
                  )
                  (λ k e h. h)
            | inr long ↦
                rw
                  (
                    copy_wanted,
                    lstat_done (plan stat_wanted) wanted a looks,
                    here,
                    different,
                    with_slice,
                    long,
                  )
                  (copy_beside-Holds id (other_name separator (take 12 id) wanted) a looks_again)
          ]
        ]
  ]

  -- Where the two calls of os.Lstat do not fail: whatever the other calls answer and wherever the process
  -- dies, every file of the directory stays with its content; where the copy returns a name, a file with the digest of the spooled audio stands under it.
  pub copy_uploaded_source-Holds :
      (item : SpoolItem) (a : Files)
      → is_done (plan stat_wanted) ≡ true
      → is_done (plan stat_other) ≡ true
      → Ends (Holds IsSame a) a (copy_uploaded_source separator sha256 plan (some audio) item a)
  unfolding copy_uploaded_source
  copy_uploaded_source-Holds item a looks looks_again =
      try-Ends (Holds IsSame a) a (plan make_completed) _ _ a _ (λ k c e. e) (λ k c e. e)
        (copy_wanted-Holds item.id (base separator item.source_path) a looks looks_again)

  -- The method changes nothing and returns no name.
  abbrev pub IsStuck : Files → Exit Text × Files → Type 0
  IsStuck a r = (r.1 ≡ a) × ((name : Text) → r.0 ≢ returned name)

  try-IsStuck :
      (o : Outcome) (a : Files) (n : Exec Files Text)
      → IsStuck a (n a)
      → IsStuck a ((attempt o (λ t. t) (λ t. t) >> n) a)
  unfolding attempt
  try-IsStuck done a n h = h
  try-IsStuck failed a n h = (refl, λ name e. absurd (cc))
  try-IsStuck torn a n h = (refl, λ name e. absurd (cc))
  try-IsStuck crash a n h = (refl, λ name e. absurd (cc))
  try-IsStuck torn_crash a n h = (refl, λ name e. absurd (cc))

  sliced-IsStuck :
      (id destination : Text) (a : Files)
      → has a (partial_name (take 12 id) destination) ≡ true
      → IsStuck a (
          with_slice id
            (λ short. create_copy plan (partial_name short destination) destination audio)
            a)
  unfolding with_slice create_copy
  sliced-IsStuck id destination a left = elim (Bool-cases (ltb (length id) 12)) [
    | inl short ↦ rw (with_slice, short) (refl, λ name e. absurd (cc))
    | inr long ↦ rw (with_slice, long, left, create_copy) (refl, λ name e. absurd (cc))
  ]

  wanted-IsStuck :
      (id wanted : Text) (a : Files)
      → get a wanted ≡ none
      → has a (partial_name (take 12 id) wanted) ≡ true
      → IsStuck a (copy_wanted separator sha256 plan (some audio) id wanted a)
  unfolding copy_wanted copy_to
  wanted-IsStuck id wanted a new left =
      rw (copy_wanted, lstat_free (plan stat_wanted) wanted a new)
        (try-IsStuck (plan open_source) a
          (with_slice id λ short. create_copy plan (partial_name short wanted) wanted audio)
          (sliced-IsStuck id wanted a left))

  -- Where a copy that died has left its partial file and its destination is still free, each later copy
  -- of the item changes nothing and returns no name, whatever the calls answer.
  pub copy_uploaded_source-IsStuck :
      (item : SpoolItem) (a : Files)
      → get a (base separator item.source_path) ≡ none
      → has a (partial_name (take 12 item.id) (base separator item.source_path)) ≡ true
      → IsStuck a (copy_uploaded_source separator sha256 plan (some audio) item a)
  unfolding copy_uploaded_source
  copy_uploaded_source-IsStuck item a new left =
      try-IsStuck (plan make_completed) a
        (copy_wanted separator sha256 plan (some audio) item.id (base separator item.source_path))
        (wanted-IsStuck item.id (base separator item.source_path) a new left)
