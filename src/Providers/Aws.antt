-- ===== src/Providers/Aws.antt =====
-- pkg/providers/aws.go
use tsecret.Common.{
  ◌&&◌, not, [], ◌∷◌, ◌++◌, Text, codes, is_empty, Result, ok, err, errorf, text, num, wrap, ◌>>=◌,
  ◌==◌, if◌then◌else◌,
}
use tsecret.Api.{AwsConfig}
use tsecret.Providers.Base.{Http, Json, Environ, get, post, get_request, property_or_all}

pub record AwsProvider : Type 0 where
  pub region : Text
  pub access_key : Text
  pub secret_key : Text

unfoldable pub new_aws_provider : Environ → AwsConfig → Result AwsProvider
new_aws_provider env config =
    if is_empty config.region
    then err (errorf "AWS region is required" [])
    else ok (record {
      region = config.region;
      access_key = env (codes "AWS_ACCESS_KEY_ID");
      secret_key = env (codes "AWS_SECRET_ACCESS_KEY");
    })

-- signRequest changes nothing of the request: it only tells whether there are credentials.
unfoldable pub aws_sign_request : Environ → AwsProvider → Result (Unit {0})
aws_sign_request env p =
    if not (is_empty p.access_key) && not (is_empty p.secret_key)
    then ok tt
    else if not (is_empty (env (codes "AWS_WEB_IDENTITY_TOKEN_FILE")))
    then ok tt
    else err (
        errorf
          "no AWS credentials configured (set AWS_ACCESS_KEY_ID/AWS_SECRET_ACCESS_KEY or use IRSA)"
          [])

unfoldable pub aws_get_secret :
    {J : Type 0} → Http → Json J → Environ → AwsProvider → Text → Text → Result Text
aws_get_secret http json env p key property = do
  let endpoint = codes "https://secretsmanager." ++ p.region ++ codes ".amazonaws.com"
  _ ← wrap "failed to create AWS request: %w" [] (http.check post endpoint)
  _ ← wrap "failed to sign AWS request: %w" [] (aws_sign_request env p)
  resp ← wrap "AWS Secrets Manager request failed: %w" [] (
      http.send (record {
        method = post;
        url = endpoint;
        raw_query = [];
        headers =
            (codes "Content-Type", codes "application/x-amz-json-1.1")
            ∷ (codes "X-Amz-Target", codes "secretsmanager.GetSecretValue")
            ∷ [];
        body = codes "{\"SecretId\":\"" ++ key ++ codes "\"}";
      }))
  body ←
      (if resp.status_code == 200
        then ok resp.body
        else err (
            errorf "AWS Secrets Manager returned HTTP %d: %s"
              (num resp.status_code ∷ text resp.body ∷ [])))
  value ←
      wrap "failed to decode AWS response: %w" []
        (json.decode_string (codes "SecretString" ∷ []) body)
  property_or_all json "AWS secret %q is not JSON, cannot extract property %q"
      "property %q not found in AWS secret %q" key property value

unfoldable pub aws_health_check : Http → Environ → AwsProvider → Result (Unit {0})
aws_health_check http env p = do
  let endpoint =
      codes "https://sts."
      ++ p.region
      ++ codes ".amazonaws.com/?Action=GetCallerIdentity&Version=2011-06-15"
  _ ← wrap "failed to create STS request: %w" [] (http.check get endpoint)
  _ ← wrap "failed to sign STS request: %w" [] (aws_sign_request env p)
  resp ← wrap "AWS STS health check failed: %w" [] (http.send (get_request endpoint []))
  (if resp.status_code == 200
      then ok tt
      else err (errorf "AWS STS returned HTTP %d" (num resp.status_code ∷ [])))
