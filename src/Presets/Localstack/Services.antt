-- ===== src/Presets/Localstack/Services.antt =====
-- preset/localstack/options.go: the services and their decoding.
use gnomock.Engine.Actions.{◌>>=◌, M, pure, fail, given, wrapping}
use gnomock.Engine.{Reply}
use gnomock.Errors.{plain}
use gnomock.Base.{Text, List, lit, ◌∷◌, ◌++◌, [], if◌then◌else◌, any, text_eq}

-- The constants of the type Service.
abbrev pub services : List Text
services =
    lit "apigateway"
    ∷ lit "cloudformation"
    ∷ lit "cloudwatch"
    ∷ lit "logs"
    ∷ lit "events"
    ∷ lit "dynamodb"
    ∷ lit "dynamodbstreams"
    ∷ lit "ec2"
    ∷ lit "es"
    ∷ lit "firehose"
    ∷ lit "iam"
    ∷ lit "kinesis"
    ∷ lit "kms"
    ∷ lit "lambda"
    ∷ lit "redshift"
    ∷ lit "route53"
    ∷ lit "s3"
    ∷ lit "secretsmanager"
    ∷ lit "ses"
    ∷ lit "sns"
    ∷ lit "sqs"
    ∷ lit "ssm"
    ∷ lit "sts"
    ∷ lit "stepfunctions"
    ∷ []

-- Service.UnmarshalJSON: what json.Unmarshal gives for the text, and then one of the constants.
unfoldable pub unmarshal_service : (Text → Reply Text) → Text → M Text
unmarshal_service unmarshal bs = do
  service ← wrapping (lit "invalid service '" ++ (bs ++ lit "'")) (given (unmarshal bs))
  if any (text_eq service) services
      then pure service
      else fail (plain (lit "unknown service '" ++ (service ++ lit "'")))
