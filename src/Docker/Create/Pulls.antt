-- ===== src/Docker/Create/Pulls.antt =====
-- When an image is pulled before its container is created.
use gnomock.Base.{Text, List, ◌≡◌, true, false, arith, lit, ◌∷◌, inr, ◌⊎◌, Bool-cases, inl, refl}
use gnomock.Ports.{NamedPorts}
use gnomock.Options.{Options}
use gnomock.Engine.{World, History, image_list, image_pull, reply, close_pull, read_pull}
use gnomock.Engine.Actions.{
  wrapping, ok, ◌>>◌, ended, Reply-cases, returned, refused, panicked, hung,
}
use gnomock.Docker.Images.{is_listed, is_existing_local_image, pull_image}
use gnomock.Docker.Create.{create_container, prepare_container, has_local_image, pull_unless}

module _ (w : World) (image : Text) (ports : NamedPorts) (cfg : Options) (h : History) where
  -- From `g` on, docker has agreed to pull the image, its output was read to the end without an
  -- error, and it was closed.
  abbrev pub Pulled : History → History → Type 0
  Pulled g g' =
      (w.pulls image cfg.auth g ≡ reply tt)
      × (w.reads_pull (image_pull image cfg.auth ∷ g) ≡ reply tt)
      × (g' ≡ close_pull ∷ read_pull ∷ image_pull image cfg.auth ∷ g)

  pull_image-calls : (g g' : History) → pull_image w image cfg.auth g ≡ (ok tt, g') → Pulled g g'
  unfolding pull_image
  pull_image-calls g g' p = elim (Reply-cases (w.pulls image cfg.auth g)) [
    | inr (x, q) ↦ absurd (ground arith)
    | inl (u, q) ↦ elim (Reply-cases (w.reads_pull (image_pull image cfg.auth ∷ g))) [
      | inr (x, t) ↦
          elim (Reply-cases (w.closes_pull (read_pull ∷ image_pull image cfg.auth ∷ g))) [
            | inl (v, r) ↦ absurd (ground arith)
            | inr (y, r) ↦ absurd (ground arith)
          ]
      | inl (z, t) ↦
          elim (Reply-cases (w.closes_pull (read_pull ∷ image_pull image cfg.auth ∷ g))) [
            | inl (v, r) ↦ (ground arith, ground arith, ground arith)
            | inr (x, r) ↦ (ground arith, ground arith, ground arith)
          ]
    ]
  ]

  create_container-of-wrapping :
      (id : Text) (g h' : History)
      → wrapping (lit "can't create container") (create_container w image ports cfg) g ≡ (ok id, h')
      → create_container w image ports cfg g ≡ (ok id, h')
  create_container-of-wrapping id g h' p = elim (ended (create_container w image ports cfg g)) [
    | returned i k q ↦ ground arith
    | refused x k q ↦ absurd (ground arith)
    | panicked k q ↦ absurd (ground arith)
    | hung k q ↦ absurd (ground arith)
  ]

  after_pull :
      (id : Text) (g h' : History)
      → (wrapping (lit "can't pull image") (pull_image w image cfg.auth)
            >> wrapping (lit "can't create container") (create_container w image ports cfg))
          g
        ≡ (ok id, h')
      → (k : History) × Pulled g k × (create_container w image ports cfg k ≡ (ok id, h'))
  after_pull id g h' p = elim (ended (pull_image w image cfg.auth g)) [
    | returned u k q ↦ (
      k,
      pull_image-calls g k (ground arith),
      create_container-of-wrapping id k h' (ground arith),
    )
    | refused x k q ↦ absurd (ground arith)
    | panicked k q ↦ absurd (ground arith)
    | hung k q ↦ absurd (ground arith)
  ]

  -- What has been done when a container is about to be created: without local images first, the
  -- image was pulled; with them, the images were listed, and the image was pulled only if it is not
  -- among them.
  abbrev pub HasImage : History → Type 0
  HasImage g =
      ((cfg.use_local_images_first ≡ false) × Pulled h g)
      ⊎ ((cfg.use_local_images_first ≡ true)
          × (images : List (List Text)) × (w.images h ≡ reply images)
          × (((is_listed image images ≡ true) × (g ≡ image_list ∷ h))
              ⊎ ((is_listed image images ≡ false) × Pulled (image_list ∷ h) g)))

  -- A preparation that succeeds is the creation of the container at the point where its image is
  -- there: without local images first, the image was pulled, and the output of the pull was read
  -- without an error; with them, the images were listed, and the image was pulled in this way unless
  -- it is among them.
  pub prepare_container-HasImage :
      (id : Text) (h' : History)
      → prepare_container w image ports cfg h ≡ (ok id, h')
      → (g : History) × HasImage g × (create_container w image ports cfg g ≡ (ok id, h'))
  unfolding prepare_container has_local_image pull_unless is_existing_local_image
  prepare_container-HasImage id h' p = elim (Bool-cases cfg.use_local_images_first) [
    | inr never ↦
        let (g, did, created) = after_pull id h h' (ground arith) in (g, inl (never, did), created)
    | inl first ↦ elim (Reply-cases (w.images h)) [
      | inr (x, q) ↦ absurd (ground arith)
      | inl (images, q) ↦ elim (Bool-cases (is_listed image images)) [
        | inr missing ↦
            let (g, did, created) = after_pull id (image_list ∷ h) h' (ground arith) in
            (g, inr (first, images, q, inr (missing, did)), created)
        | inl found ↦ (
          image_list ∷ h,
          inr (first, images, q, inl (found, refl)),
          create_container-of-wrapping id (image_list ∷ h) h' (ground arith),
        )
      ]
    ]
  ]
