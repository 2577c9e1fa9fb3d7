-- ===== src/Presets/Files.antt =====
-- Files of JSON messages, as preset/kafka/preset.go and preset/rabbitmq/preset.go both read them.
pub mod Decoded
use gnomock.Base.{Text, List, ◌∷◌, lit, ◌++◌, []}
use gnomock.Engine.Actions.{
  ◌>>=◌, ◌>>◌, value, failed, M, wrapping, pure, Tried, fail, given, closing, kept_if,
}
use gnomock.Engine.{Reply}
use gnomock.Errors.{wrap}

-- os.Open, Close, and what the decoder of a file gives, call after call, before io.EOF. The files do
-- not change.
pub record Files (A : Type 0) : Type 0 where
  pub opens_file : Text → Reply (Unit {0})
  pub closes_file : Text → Reply (Unit {0})
  pub decodes : Text → List (Tried A)

module _ {A : Type 0} where
  -- The loop of the decoder.
  unfoldable pub read_messages : Text → List (Tried A) → M (List A)
  read_messages file [] = pure []
  read_messages file (failed e ∷ rest) =
      fail (wrap (lit "can't read message from file '" ++ (file ++ lit "'")) e)
  read_messages file (value m ∷ rest) = do messages ← read_messages file rest; pure (m ∷ messages)

  module _ (s : Files A) where
    unfoldable pub load_messages_from_file : Text → M (List A)
    load_messages_from_file file = do
      wrapping (lit "can't open messages file '" ++ (file ++ lit "'")) (given (s.opens_file file))
      closing (s.closes_file file) (read_messages file (s.decodes file))

    -- The loop over the files, from the messages so far to all messages.
    unfoldable pub load_files : List Text → List A → M (List A)
    load_files [] messages = pure messages
    load_files (f ∷ files) messages = do
      more ←
          wrapping (lit "can't read messages from file '" ++ (f ++ lit "'"))
            (load_messages_from_file f)
      load_files files (messages ++ more)

    -- The preset's messages after that loop, also when a file cannot be read: what was read of the
    -- files before it is kept.
    unfoldable pub kept_messages : List Text → List A → List A
    kept_messages [] messages = messages
    kept_messages (f ∷ files) messages =
        kept_if (load_messages_from_file f []).0 (λ more. kept_messages files (messages ++ more))
          messages
