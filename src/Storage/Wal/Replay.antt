-- ===== src/Storage/Wal/Replay.antt =====
-- Writing the frames of a log into the database file (`checkpoint` and `recover` of wal.rs): a crash
-- on the way does no harm, since the same frames written again hide what was written before.
use embeddb.Base.{
  ℕ, ◌+◌, ◌*◌, ◌<◌, ◌≤◌, ◌≡◌, ◌≢◌, refl, ap, sym, ◌∙◌, ◌⊎◌, inl, inr, List, [], ◌∷◌, ◌++◌, arith,
}
use embeddb.Base.Bytes.{write_at}
use embeddb.Base.Writes.{write_at-write_at_same, write_at-write_at_apart}
use embeddb.Storage.Wal.{WalFrame, apply_frames}
use embeddb.Storage.Wal.Frames.{FrameFits, AllFit}

module _ (page_size : ℕ) where
  write_frame : WalFrame → List ℕ → List ℕ
  write_frame f db = write_at (f.page_number * page_size) f.page_data db

  write-write_same :
      (f g : WalFrame) (db : List ℕ)
      → FrameFits page_size f
      → FrameFits page_size g
      → f.page_number ≡ g.page_number
      → write_frame f (write_frame g db) ≡ write_frame f db
  unfolding write_frame
  write-write_same f g db fit fitg same = rw same (
      write_at-write_at_same (g.page_number * page_size) g.page_data f.page_data db
        (omega (arith, fit.page_data, fitg.page_data)))

  pages_apart :
      (m n : ℕ)
      → m ≢ n
      → (m * page_size + page_size ≤ n * page_size) ⊎ (n * page_size + page_size ≤ m * page_size)
  pages_apart m n ne = elim side [ inl h ↦ inl (scaled m n h) | inr h ↦ inr (scaled n m h) ]
    where
      side : (m < n) ⊎ (n < m)
      side = ground arith

      scaled : (m n : ℕ) → m < n → m * page_size + page_size ≤ n * page_size
      scaled m n h = grind arith

  write-write_apart :
      (f g : WalFrame) (db : List ℕ)
      → FrameFits page_size f
      → FrameFits page_size g
      → f.page_number ≢ g.page_number
      → write_frame f (write_frame g db) ≡ write_frame g (write_frame f db)
  unfolding write_frame
  write-write_apart f g db fit fitg ne =
      write_at-write_at_apart _ _ f.page_data g.page_data db
        (rw (fit.page_data, fitg.page_data) (pages_apart f.page_number g.page_number ne))

  number_cases : (m n : ℕ) → (m ≡ n) ⊎ (m ≢ n)
  number_cases m n = ground arith

  apply : List WalFrame → List ℕ → List ℕ
  apply = apply_frames page_size

  -- A frame written before and after others is as good as written after them only.
  write-apply-write :
      (f : WalFrame) (fs : List WalFrame) (db : List ℕ)
      → FrameFits page_size f
      → AllFit page_size fs
      → write_frame f (apply fs (write_frame f db)) ≡ write_frame f (apply fs db)
  unfolding apply apply_frames write_frame
  write-apply-write f [] db fit more = write-write_same f f db fit fit refl
  write-apply-write f (g ∷ gs) db fit (fitg, more) =
      elim (number_cases g.page_number f.page_number) [
        | inl same ↦ ap (λ d. write_frame f (apply gs d)) (write-write_same g f db fitg fit same)
        | inr ne ↦
            ap (λ d. write_frame f (apply gs d)) (write-write_apart g f db fitg fit ne)
            ∙ write-apply-write f gs (write_frame g db) fit more
      ]

  pub AllFit-append :
      (fs gs : List WalFrame)
      → AllFit page_size fs
      → AllFit page_size gs
      → AllFit page_size (fs ++ gs)
  AllFit-append [] gs fit more = more
  AllFit-append (f ∷ fs) gs (fit, rest) more = (fit, AllFit-append fs gs rest more)

  apply-append :
      (fs gs : List WalFrame) (db : List ℕ) → apply (fs ++ gs) db ≡ apply gs (apply fs db)
  unfolding apply apply_frames
  apply-append [] gs db = refl
  apply-append (f ∷ fs) gs db = apply-append fs gs _

  apply-nil : (db : List ℕ) → apply [] db ≡ db
  unfolding apply apply_frames
  apply-nil db = refl

  apply-cons :
      (f : WalFrame) (fs : List WalFrame) (db : List ℕ)
      → apply (f ∷ fs) db ≡ apply fs (write_frame f db)
  unfolding apply apply_frames write_frame
  apply-cons f fs db = refl

  apply-apply_between :
      (fs gs : List WalFrame) (db : List ℕ)
      → AllFit page_size fs
      → AllFit page_size gs
      → apply fs (apply gs (apply fs db)) ≡ apply fs (apply gs db)
  unfolding apply apply_frames write_frame
  apply-apply_between [] gs db fit fitg = rw (apply-nil db) refl
  apply-apply_between (f ∷ fs) gs db (fit, more) fitg =
      rw
        (
          apply-cons f fs db,
          apply-cons f fs (apply gs (apply fs (write_frame f db))),
          apply-cons f fs (apply gs db),
          sym (apply-append fs gs (write_frame f db)),
          write-apply-write f (fs ++ gs) db fit (AllFit-append fs gs more fitg),
          apply-append fs gs db,
          sym (apply-append gs (f ∷ []) (apply fs db)),
          sym (apply-append gs (f ∷ []) db),
        )
        (apply-apply_between fs (gs ++ f ∷ []) db more (AllFit-append gs (f ∷ []) fitg (fit, tt)))

  apply-apply :
      (fs : List WalFrame) (db : List ℕ)
      → AllFit page_size fs
      → apply fs (apply fs db) ≡ apply fs db
  apply-apply fs db fit =
      ap (apply fs) (sym (apply-nil (apply fs db)))
      ∙ apply-apply_between fs [] db fit tt
      ∙ ap (apply fs) (apply-nil db)

  -- The frames `fs` were written and then everything is written again.
  pub apply_frames-prefix :
      (fs gs : List WalFrame) (db : List ℕ)
      → AllFit page_size fs
      → apply_frames page_size (fs ++ gs) (apply_frames page_size fs db)
        ≡ apply_frames page_size (fs ++ gs) db
  unfolding apply
  apply_frames-prefix fs gs db fit =
      apply-append fs gs (apply fs db)
      ∙ ap (apply gs) (apply-apply fs db fit)
      ∙ sym (apply-append fs gs db)
