-- ===== src/Samples.antt =====
-- Rows that the tests of several modules share.
use uni_mailbox.Prelude.{[], ◌∷◌, none, some}
use uni_mailbox.Domain.{MessageStatus}
use uni_mailbox.Schema.{
  Message, version, Database, Mailbox, MailboxStatus, MailDomain, DomainStatus,
}

abbrev pub empty_database : Database
empty_database = record {
  jobs = [];
  messages = [];
  links = [];
  recipients = [];
  mailboxes = [];
  members = [];
  domains = [];
  connections = [];
  credentials = [];
  attachments = [];
  deliveries = [];
  states = [];
  events = [];
  idempotency = [];
}

-- Mailbox 4 of domain 9 belongs to user 1.
abbrev pub sample_mailbox : Mailbox
sample_mailbox = record {
  id = 4;
  domain_id = 9;
  owner_user_id = 1;
  address = "ann@example.com";
  display_name = "Ann";
  status = MailboxStatus.active;
  updated_at = 0;
}

abbrev pub sample_domain : MailDomain
sample_domain = record {
  id = 9;
  name = "example.com";
  status = DomainStatus.active;
  outbound_connection_id = some 7;
}

abbrev pub sample_database : Database
sample_database = record empty_database {
  mailboxes = sample_mailbox ∷ [];
  domains = sample_domain ∷ [];
}

-- Message 2 of Ann's.
abbrev pub sample_message : Message
sample_message = record {
  id = 2;
  domain_id = some 9;
  thread_id = 2;
  from_address = "ann@example.com";
  from_name = "Ann";
  subject = "Hello";
  html_body = "";
  text_body = "Hello";
  message_id_header = none;
  in_reply_to_header = none;
  references_header = "";
  provider_key = none;
  provider_connection_id = none;
  provider_message_id = none;
  status = MessageStatus.draft;
  error_code = none;
  error_message = none;
  created_by_user_id = some 1;
  sent_at = none;
  updated_at = version 10;
}
