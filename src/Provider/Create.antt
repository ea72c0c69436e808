-- ===== src/Provider/Create.antt =====
-- sdk/provider/create.go and key_create.go: the reviewed inputs of a creation.
-- `ssh.ParseAuthorizedKey` (golang.org/x/crypto) is the parameter `parse_authorized_key`.
use providah_community.Prelude.{
  ℕ, ◌==◌, Bool, not, ◌&&◌, ◌||◌, false, String, len, Option, none, some, Error, fail_if, ◌>>>◌,
  if◌then◌else◌, ltb, leb, eqb, occurs, codes, trim_space,
}
use providah_community.Regex.{matches, literal}
use providah_community.Provider.Patterns.{
  server_name, hex_id, instance_type, positive_id, plain_size, uuid,
}

pub record ServerCreate : Type 0 where
  pub network : String
  pub name : String
  pub image : String
  pub size : String
  pub ssh_key : String
  pub subnet : String
  pub security_group : String

unfoldable pub validate_server_create : ServerCreate → String → Error
validate_server_create c cloud =
    fail_if (not (matches server_name c.name))
      "use a server name of 2–63 lowercase letters, digits, and hyphens"
    >>> (if cloud == "aws"
        then fail_if (not (c.network == "")) "AWS uses subnet and security group selection"
          >>> fail_if
              (not (matches (literal "ami-" hex_id) c.image)
                || not (matches instance_type c.size)
                || ltb 64 (len c.size)
                || not (matches (literal "key-" hex_id) c.ssh_key)
                || not (matches (literal "subnet-" hex_id) c.subnet)
                || not (matches (literal "sg-" hex_id) c.security_group))
              "choose an AMI, instance type, key pair ID, subnet, and security group"
        else fail_if
            (not (matches positive_id c.image)
              || not (matches positive_id c.ssh_key)
              || not (matches plain_size c.size)
              || not (c.subnet == "")
              || not (c.security_group == ""))
            "choose an image ID, SSH key ID, and server size")
    >>> (if not (c.network == "")
        then fail_if
            (not (
              cloud == "hetzner" && matches positive_id c.network
              || cloud == "digitalocean" && matches uuid c.network))
            "choose a valid private network ID"
        else none)

-- What `ssh.ParseAuthorizedKey` returns: the key's `Type()`, the bits of its RSA modulus where it
-- is an RSA crypto key, its `Marshal()`, the number of options, and the rest of the input.
pub record AuthorizedKey : Type 0 where
  pub algorithm : String
  pub rsa_bits : Option ℕ
  pub marshaled : String
  pub options : ℕ
  pub rest : String

pub record SshKeyCreate : Type 0 where
  pub name : String
  pub public_key : String

abbrev enough_bits : Option ℕ → Bool
enough_bits none = false
enough_bits (some bits) = leb 2048 bits

module _ (parse_authorized_key : String → Option AuthorizedKey) where
  -- A single key with no options and nothing after it.
  unfoldable pub parse_single : String → Option AuthorizedKey
  parse_single text = elim (parse_authorized_key text) [
    | none ↦ none
    | some key ↦
        if not (eqb key.options 0) || not (trim_space key.rest == "") then none else some key
  ]

  unfoldable pub validate_ssh_key_create : SshKeyCreate → Error
  unfolding parse_single
  validate_ssh_key_create c =
      fail_if (not (matches server_name c.name) || ltb 16384 (len c.public_key))
        "invalid SSH key name or size"
      >>> fail_if
          (occurs (codes "\r") (codes (trim_space c.public_key))
            || occurs (codes "\n") (codes (trim_space c.public_key)))
          "supply a single public key line"
      >>> elim (parse_single c.public_key) [
        | none ↦ some "supply one OpenSSH public key without options"
        | some key ↦
            if key.algorithm == "ssh-ed25519"
              || key.algorithm == "ssh-rsa" && enough_bits key.rsa_bits
            then none
            else some "use Ed25519 or RSA with at least 2048 bits"
      ]

  unfoldable pub public_keys_equal : String → String → Bool
  unfolding parse_single
  public_keys_equal a b = elim (parse_single a) [
    | none ↦ false
    | some first ↦ elim (parse_single b) [
      | none ↦ false
      | some second ↦ first.marshaled == second.marshaled
    ]
  ]
