-- ===== src/Github/Nodes.antt =====
-- The nodes of the answers of GitHub's second API, and what the context makes of them.
use policy_bot.Prelude.{
  String, Bool, not, Option, none, some, List, str_eq, if◌then◌else◌, to_lower,
}
use policy_bot.Pull.{
  Time, Signature, Commit, Comment, Review, Reviewer, reviewer_user, reviewer_team, signature_gpg,
}
use policy_bot.Github.{V4Actor, get_v3_login}

pub record V4PullRequestReview : Type 0 where
  pub id : String
  pub author : V4Actor
  pub state : String
  pub body : String
  pub submitted_at : Time
  pub last_edited_at : Time
  pub commit_oid : String
  pub on_behalf_of : List String

unfoldable pub to_review : V4PullRequestReview → Review
unfolding get_v3_login
to_review r = record {
  id = r.id;
  created_at = r.submitted_at;
  last_edited_at = r.last_edited_at;
  author = get_v3_login (some r.author);
  state = to_lower r.state;
  body = r.body;
  sha = r.commit_oid;
  teams = r.on_behalf_of;
}

unfoldable pub review_to_comment : V4PullRequestReview → Comment
unfolding get_v3_login
review_to_comment r = record {
  created_at = r.submitted_at;
  last_edited_at = r.last_edited_at;
  author = get_v3_login (some r.author);
  body = r.body;
}

pub record V4IssueComment : Type 0 where
  pub author : V4Actor
  pub body : String
  pub created_at : Time
  pub last_edited_at : Time

unfoldable pub to_comment : V4IssueComment → Comment
unfolding get_v3_login
to_comment c = record {
  created_at = c.created_at;
  last_edited_at = c.last_edited_at;
  author = get_v3_login (some c.author);
  body = c.body;
}

-- The three kinds of signature are one struct each; the fields that nothing reads are left out.
pub record V4GpgSignature : Type 0 where
  pub is_valid : Bool
  pub key_id : String
  pub signer : Option V4Actor
  pub state : String

pub record V4SmimeSignature : Type 0 where
  pub is_valid : Bool
  pub signer : Option V4Actor
  pub state : String

pub record V4SshSignature : Type 0 where
  pub is_valid : Bool
  pub key_fingerprint : String
  pub signer : Option V4Actor
  pub state : String

pub record V4GitSignature : Type 0 where
  pub type : String
  pub gpg : V4GpgSignature
  pub smime : V4SmimeSignature
  pub ssh : V4SshSignature

abbrev signature_smime : String
signature_smime = "SmimeSignature"

abbrev signature_ssh : String
signature_ssh = "SshSignature"

unfoldable to_signature : V4GitSignature → Option Signature
unfolding get_v3_login
to_signature s =
    if str_eq s.type signature_gpg
    then some (record {
      type = signature_gpg;
      is_valid = s.gpg.is_valid;
      key_id = s.gpg.key_id;
      key_fingerprint = "";
      signer = get_v3_login s.gpg.signer;
      state = s.gpg.state;
    })
    else if str_eq s.type signature_smime
    then some (record {
      type = signature_smime;
      is_valid = s.smime.is_valid;
      key_id = "";
      key_fingerprint = "";
      signer = get_v3_login s.smime.signer;
      state = s.smime.state;
    })
    else if str_eq s.type signature_ssh
    then some (record {
      type = signature_ssh;
      is_valid = s.ssh.is_valid;
      key_id = "";
      key_fingerprint = s.ssh.key_fingerprint;
      signer = get_v3_login s.ssh.signer;
      state = s.ssh.state;
    })
    else none

-- The users of the author and of the committer, which may be nil.
pub record V4Commit : Type 0 where
  pub oid : String
  pub author : Option V4Actor
  pub committer : Option V4Actor
  pub committed_via_web : Bool
  pub parents : List String
  pub signature : Option V4GitSignature

unfoldable pub to_commit : V4Commit → Commit
unfolding get_v3_login to_signature
to_commit c = record {
  sha = c.oid;
  parents = c.parents;
  committed_via_web = c.committed_via_web;
  author = get_v3_login c.author;
  committer = get_v3_login c.committer;
  signature = signed c.signature;
}
  where
    signed : Option V4GitSignature → Option Signature
    signed none = none
    signed (some s) = to_signature s

-- Of a user and a team, the one that the fragment did not match is empty.
pub record V4RequestedReviewer : Type 0 where
  pub user : V4Actor
  pub team_slug : String

unfoldable pub to_reviewer : Bool → V4RequestedReviewer → Reviewer
unfolding get_v3_login
to_reviewer removed rr =
    if not (str_eq rr.user.login "")
    then record { type = reviewer_user; name = get_v3_login (some rr.user); removed = removed }
    else if not (str_eq rr.team_slug "")
    then record { type = reviewer_team; name = rr.team_slug; removed = removed }
    else record { type = ""; name = ""; removed = removed }
