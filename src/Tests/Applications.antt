-- ===== src/Tests/Applications.antt =====
-- The endpoints of backend/app/api/applications.py at concrete inputs.
use resume_helper.Base.{
  inr, true, keep, arith, ◌≡◌, ◌++◌, ◌+◌, refl, false, none, some, [], ◌∷◌, text_of, text_eq, strip,
}
use resume_helper.Audit.{get_analysis, find_analysis}
use resume_helper.Scraping.Listing.{JobListing}
use resume_helper.Evaluation.{analysis_row}
use resume_helper.Envelope.{success}
use resume_helper.JobQueue.Claim.{contains}
use resume_helper.Applications.{
  planned, applied, Application, Board, find_application, get_listing, newest, latest_resume, load,
  Links, complete_links, load_links, shares_link, find_existing, ApplicationOut, application_out,
}
use resume_helper.Applications.Hydrate.{hydrate}
use resume_helper.Applications.Endpoints.{
  ApplicationCreateIn, ApplicationUpdateIn, has_link, has_manual_label, status_eq, is_unchanged,
  touched, set_application, new_application, insert_application, create_or_reuse,
  create_application, get_application, edit_application, update_links, update_application,
}
use resume_helper.Applications.Pages.{
  Collation, ListQuery, by_company, desc, OrderBy, matching, is_match, has_status, order_columns,
  nulls_last, goes_before, ordered, list_applications,
}
use resume_helper.Applications.Ordering.{IsOrderBy, columns_of}
use resume_helper.Applications.Sound.{IsSound}
use resume_helper.Applications.Reach.{begin, create, Reach-IsSound}
use resume_helper.Applications.Answers.{own_answer, hydrate-own}
use resume_helper.Applications.RoundTrip.{
  create_application-get_application, update_application-get_application,
}
use resume_helper.Applications.Again.{FindsAgain, create_application_again}
use resume_helper.Applications.Paging.{list_applications-append}
use resume_helper.Listings.Admin.{
  AdminEnv, JobListingBulkDeleteIn, bulk_delete, resolve_targets, is_target, is_deletable,
  delete_backed_up, write_backup, delete_listings,
}
use resume_helper.Listings.Deletions.{is_analyzed, bulk_delete_kept}
use resume_helper.Tests.World.{graded, row}

abbrev listing : JobListing
listing = record {
  id = 1;
  source = text_of "s";
  source_id = text_of "1";
  title = text_of "Engineer";
  company = text_of "Acme";
  location = none;
  url = text_of "u";
  description = text_of "Python";
  raw_json = none;
  scraped_at = 3;
  changed_at = none;
  job_analysis_id = some 5;
}

-- A listing with its analysis, and no application.
abbrev start : Board
start = record { applications = []; listings = listing ∷ []; db = graded }

abbrev body : ApplicationCreateIn
body = record {
  job_listing_id = some 1;
  job_analysis_id = none;
  generated_resume_id = none;
  company = none;
  title = none;
  source_url = none;
  status = planned;
  follow_up_date = none;
  notes = none;
}

abbrev edit : ApplicationUpdateIn
edit = record {
  job_listing_id = none;
  job_analysis_id = none;
  generated_resume_id = none;
  company = none;
  title = none;
  source_url = none;
  status = some (some applied);
  follow_up_date = some (some 9);
  notes = some none;
}

abbrev links : Links
links = record { listing = some listing; analysis = some row; resume = none }

abbrev created : Board
created = (create_application 20 100 body start).0

abbrev new_row : Application
new_row = new_application 20 100 body links

abbrev out : ApplicationOut
out = application_out new_row links

created_out : (create_application 20 100 body start).1 ≡ success (out, false)
unfolding create_application has_link has_manual_label load_links load get_listing complete_links
    latest_resume newest get_analysis find_analysis create_or_reuse find_existing shares_link
    insert_application find_application new_application application_out analysis_row
created_out = refl

created-IsSound : IsSound created
created-IsSound = Reach-IsSound start created refl (create begin 20 100 body)

Reach-IsSound_example : IsSound (create_application 21 110 body created).0
Reach-IsSound_example =
    Reach-IsSound start (create_application 21 110 body created).0 refl
      (create (create begin 20 100 body) 21 110 body)

create_application-get_application_example : get_application 20 created ≡ success out
create_application-get_application_example =
    create_application-get_application 20 100 body start out tt created_out

create_application_again_example : FindsAgain created (create_application 21 110 body created)
create_application_again_example =
    create_application_again 20 21 100 110 body start out false (unfold has_link in refl)
      created_out

abbrev listed : Board
listed = record start { applications = new_row ∷ [] }

abbrev edited_out : ApplicationOut
edited_out =
    application_out (record new_row { status = applied; follow_up_date = some 9; updated_at = 120 })
      links

edits : (update_application 120 20 edit listed).1 ≡ success edited_out
unfolding load_links load get_listing complete_links latest_resume newest get_analysis find_analysis
    find_application new_application application_out update_application update_links
    edit_application touched is_unchanged status_eq set_application analysis_row strip
edits = refl

update_application-get_application_example :
    get_application 20 (update_application 120 20 edit listed).0 ≡ success edited_out
update_application-get_application_example =
    update_application-get_application 120 20 edit listed edited_out tt edits

hydrate-own_example : hydrate start (new_row ∷ []) ≡ own_answer start new_row ∷ []
unfolding new_application
hydrate-own_example = hydrate-own start (new_row ∷ []) (refl, tt)

abbrev collation : Collation
collation = record { lower = λ s. s; less = λ s t. false; ilike = text_eq }

abbrev query : ListQuery
query = record {
  q = none;
  status = none;
  sort_by = by_company;
  sort_dir = desc;
  limit = 1;
  offset = 0;
}

abbrev in_order : OrderBy
in_order columns rows = rows

-- Two applications that the columns before the id leave tied.
abbrev tied : Board
tied = record start { applications = new_row ∷ record new_row { id = 21 } ∷ [] }

tied-IsSound : IsSound tied
unfolding new_application get_listing get_analysis find_analysis analysis_row
tied-IsSound = record {
  distinct = (((λ e. omega (arith, e)), tt), (tt, tt));
  linked = (
    record { listing = refl; analysis = refl; resume = refl },
    (record { listing = refl; analysis = refl; resume = refl }, tt),
  );
}

in_order-IsOrderBy :
    IsOrderBy
      (columns_of collation query tied)
      (matching collation query tied)
      (ordered collation in_order query tied)
unfolding ordered matching is_match has_status order_columns nulls_last goes_before new_application
    get_listing strip
in_order-IsOrderBy = record {
  members = λ a. ((λ m. m), (λ m. m));
  distinct = (((λ e. omega (arith, e)), tt), (tt, tt));
  sorted = ((refl, tt), (tt, tt));
}

list_applications-append_example :
    (list_applications collation in_order (record query { limit = 1 + 1 }) tied).rows
    ≡ (list_applications collation in_order query tied).rows
      ++ (list_applications collation in_order
          (record query { offset = 0 + 1; limit = 1 })
          tied).rows
list_applications-append_example =
    list_applications-append collation in_order in_order in_order query 1 tied tied-IsSound
      in_order-IsOrderBy in_order-IsOrderBy in_order-IsOrderBy

abbrev admin : AdminEnv
admin = record {
  now = 9;
  isoformat = λ t. [];
  dumps = λ s. s;
  write_csv = λ rows. inr (text_of "backup.csv");
}

abbrev both : JobListingBulkDeleteIn
both = record {
  ids = some (1 ∷ 2 ∷ []);
  older_than_days = none;
  only_unanalyzed = true;
  force = false;
  backup = true;
}

-- A listing with an analysis and one without.
abbrev two_listings : Board
two_listings = record start {
  listings =
      listing ∷ record listing { id = 2; source_id = text_of "2"; job_analysis_id = none } ∷ [];
}

deleted : (bulk_delete admin both two_listings).0.listings ≡ listing ∷ []
unfolding bulk_delete resolve_targets is_target contains is_deletable delete_backed_up write_backup
    delete_listings
deleted = refl

bulk_delete_kept_example :
    keep is_analyzed (bulk_delete admin both two_listings).0.listings
    ≡ keep is_analyzed two_listings.listings
bulk_delete_kept_example =
    bulk_delete_kept admin both two_listings (((λ e. omega (arith, e)), tt), (tt, tt)) refl
