-- ===== src/Docker/Images.antt =====
-- docker.go: isExistingLocalImage and pullImage.
pub mod Local
use gnomock.Base.{Text, lit, has_suffix, contains_byte, any, Bool, List, ◌++◌, if◌then◌else◌}
use gnomock.Engine.{World, image_list, image_pull, read_pull, close_pull}
use gnomock.Engine.Actions.{M, ask, try, rethrow, ignore, pure, wrapping, ◌>>=◌, ◌>>◌}

-- The names of docker's own registry are listed without their first part.
qualified : Text → Text
qualified repo_tag = if contains_byte b'/' repo_tag then repo_tag else lit "library/" ++ repo_tag

-- The two loops over the images and their tags.
unfoldable pub is_listed : Text → List (List Text) → Bool
unfolding qualified
is_listed image images = any (any (λ repo_tag. has_suffix image (qualified repo_tag))) images

module _ (w : World) where
  unfoldable pub is_existing_local_image : Text → M Bool
  is_existing_local_image image = do
    images ← wrapping (lit "can't list image") (ask image_list w.images)
    pure (is_listed image images)

  -- The deferred function assigns the error of Close to a variable that is no result.
  unfoldable pub pull_image : Text → Text → M (Unit {0})
  pull_image image auth = do
    wrapping (lit "can't pull image") (ask (image_pull image auth) (w.pulls image auth))
    r ← try (wrapping (lit "can't read server output") (ask read_pull w.reads_pull))
    ignore (ask close_pull w.closes_pull)
    rethrow r
